-- ===== src/ProcessPool/Dispatch.antt =====
-- Which child gets which task.
use linux_cpp.Common.{
  suc-mod, ℕ, zero, suc, ◌+◌, ◌%◌, ◌<◌, ◌≡◌, ◌≢◌, refl, sym, ◌∙◌, ap, List, [], ◌∷◌, length, get_or,
  get_elem?, some, none, arith, pos,
}
use native.Mathlib.Nat.{mod-lt, zero-mod}
use linux_cpp.ProcessPool.{Channel, Command, ctrl_process, next_channel, select_task, excute_task}

-- The `m`th command.
abbrev nth_command : (ℕ → ℕ) → Channel → List Channel → ℕ → Command
nth_command rand unmade channels m = record {
  channel = get_or channels (m % length channels) unmade;
  taskcommand = select_task rand m;
}

ctrl_process-get :
    (rand : ℕ → ℕ) (unmade : Channel) (channels : List Channel) (times k i : ℕ)
    → i < times
    → get_elem? (ctrl_process rand unmade channels times k (k % length channels)) i
      ≡ some (nth_command rand unmade channels (k + i))
unfolding ctrl_process next_channel
ctrl_process-get rand unmade channels zero k i h = absurd (omega arith)
ctrl_process-get rand unmade channels (suc times) k zero h =
    ap (λ m. some (nth_command rand unmade channels m)) (omega arith)
ctrl_process-get rand unmade channels (suc times) k (suc i) h =
    ap (λ m. get_elem? (ctrl_process rand unmade channels times (suc k) m) i)
      (suc-mod k (length channels))
    ∙ ctrl_process-get rand unmade channels times (suc k) i (omega arith)
    ∙ ap (λ m. some (nth_command rand unmade channels m)) (omega arith)

get_elem?-get_or :
    (channels : List Channel) (i : ℕ) (unmade : Channel)
    → i < length channels
    → get_elem? channels i ≡ some (get_or channels i unmade)
get_elem?-get_or [] i unmade h = absurd (omega arith)
get_elem?-get_or (c ∷ channels) zero unmade h = refl
get_elem?-get_or (c ∷ channels) (suc i) unmade h = get_elem?-get_or channels i unmade (omega arith)

excute_task_lt : (n : ℕ) → n < 3 → excute_task (pos n) ≢ none
unfolding excute_task
excute_task_lt zero h e = ground arith
excute_task_lt (suc zero) h e = ground arith
excute_task_lt (suc (suc zero)) h e = ground arith
excute_task_lt (suc (suc (suc n))) h e = absurd (omega arith)

-- With one channel or more, the commands go to the channels in turn, the `i`th to channel `i` modulo
-- their number, and each is one that `ExcuteTask` runs, whatever rand answers.
pub ctrl_process_lem :
    (rand : ℕ → ℕ) (unmade : Channel) (channels : List Channel) (times i : ℕ)
    → 0 < length channels
    → i < times
    → (c : Command) × (get_elem? (ctrl_process rand unmade channels times 0 0) i ≡ some c)
      × (get_elem? channels (i % length channels) ≡ some c.channel)
      × (excute_task (pos c.taskcommand) ≢ none)
unfolding select_task
ctrl_process_lem rand unmade channels times i some_channel h = (
  nth_command rand unmade channels i,
  ap (λ m. get_elem? (ctrl_process rand unmade channels times 0 m) i)
        (sym (zero-mod (length channels)))
      ∙ ctrl_process-get rand unmade channels times 0 i h
      ∙ ap (λ m. some (nth_command rand unmade channels m)) (omega arith),
  get_elem?-get_or channels (i % length channels) unmade (mod-lt i some_channel),
  excute_task_lt (rand i % 3) (omega arith),
)
