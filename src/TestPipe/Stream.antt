-- ===== src/TestPipe/Stream.antt =====
-- What the father of 1.testPipe reads, and how the child ends.
use linux_cpp.Common.{
  ℕ, zero, suc, ◌%◌, ◌/◌, ◌≤◌, ◌≡◌, refl, sym, ap₂, subst, length-append, ◌∙◌, true, false, take,
  ap, List, [], ◌∷◌, ◌++◌, Bytes, length, arith,
}
use linux_cpp.Socket.{c_string}
use linux_cpp.TestPipe.{
  room, info, Child, writing, killed, Father, reading, closing, waiting, reported, State, report,
  reader_open, write_message, father_process_read, Step, child_closes, writes, breaks,
  father_closes, reads, fails, ends, closes, waits, Reach, begins, later,
}

-- The first `k` messages of the process `pid`.
abbrev pub messages : (pid k : ℕ) → Bytes
messages pid zero = []
messages pid (suc k) = messages pid k ++ info pid k

-- What can be said by what the father is about to do.
abbrev pub Ended : Father → State → Type 0
Ended Father.starting s = (s.father_rfd ≡ true) × (s.printed ≡ []) × (s.pipe ≡ s.sent)
Ended reading s = (s.father_rfd ≡ true) × (s.printed ≡ []) × (s.pipe ≡ s.sent)
Ended closing s = s.father_rfd ≡ true
Ended waiting s = s.father_rfd ≡ false
Ended (reported signal code) s = (s.father_rfd ≡ false) × (signal ≡ 13) × (code ≡ 0)

-- What can be said by what the child is about to do, when it has written `k` messages.
abbrev pub WrittenBy : ℕ → Child → State → Type 0
WrittenBy k Child.starting s = (s.cnt ≡ k) × (s.child_wfd ≡ true)
WrittenBy k writing s = (s.cnt ≡ k) × (s.child_rfd ≡ false) × (s.child_wfd ≡ true)
WrittenBy k (killed signal) s = (s.father_rfd ≡ false) × (signal ≡ 13)

-- Nothing is printed, or once the text of the first bytes that were sent.
pub data Heard (sent : Bytes) : List Bytes → Type 0 where
  nothing : Heard sent []
  once : (n : ℕ) → n ≤ room → n ≤ length sent → Heard sent (c_string (take n sent) ∷ [])

pub record Piped (pid : ℕ) (s : State) : Type 0 where
  pub written : (k : ℕ) × (s.sent ≡ messages pid k) × WrittenBy k s.child s
  pub heard : Heard s.sent s.printed
  pub ended : Ended s.father s

take-append_le : (n : ℕ) (s t : Bytes) → n ≤ length s → take n (s ++ t) ≡ take n s
take-append_le zero s t h = refl
take-append_le (suc n) [] t h = absurd (omega (arith, h))
take-append_le (suc n) (x ∷ s) t h = ap (λ l. x ∷ l) (take-append_le n s t (omega (arith, h)))

Heard-append : (s t : Bytes) (texts : List Bytes) → Heard s texts → Heard (s ++ t) texts
Heard-append s t _ nothing = nothing
Heard-append s t _ (once n r h) =
    subst (λ l. Heard (s ++ t) (c_string l ∷ [])) (take-append_le n s t h)
      (once n r (omega (arith, h, length-append s t)))

-- The status of a child that has ended, as its father prints it.
killed-report :
    (k : ℕ) (s : State) (signal : ℕ)
    → WrittenBy k (killed signal) s
    → (signal % 128 ≡ 13) × (signal / 256 % 128 ≡ 0)
killed-report k s signal (gone, same) =
    (ap (λ (n : ℕ). n % 128) same, ap (λ (n : ℕ). n / 256 % 128) same)

-- A step that leaves what is said of the child, and one that leaves what is said of the father.
same_child :
    (k : ℕ) (s s' : State) (c : Child)
    → s'.cnt ≡ s.cnt
    → s'.child_rfd ≡ s.child_rfd
    → s'.child_wfd ≡ s.child_wfd
    → (s.father_rfd ≡ false → s'.father_rfd ≡ false)
    → WrittenBy k c s
    → WrittenBy k c s'
same_child k s s' Child.starting e r w f (same, own_wfd) = (e ∙ same, w ∙ own_wfd)
same_child k s s' writing e r w f (same, own_rfd, own_wfd) = (e ∙ same, r ∙ own_rfd, w ∙ own_wfd)
same_child k s s' (killed signal) e r w f (gone, is) = (f gone, is)

same_father :
    (s s' : State) (f : Father)
    → s'.father_rfd ≡ s.father_rfd
    → s'.printed ≡ s.printed
    → s'.pipe ≡ s.pipe
    → s'.sent ≡ s.sent
    → Ended f s
    → Ended f s'
same_father s s' Father.starting r p q w (o, none_yet, all) = (r ∙ o, p ∙ none_yet, q ∙ all ∙ sym w)
same_father s s' reading r p q w (o, none_yet, all) = (r ∙ o, p ∙ none_yet, q ∙ all ∙ sym w)
same_father s s' closing r p q w o = r ∙ o
same_father s s' waiting r p q w o = r ∙ o
same_father s s' (reported signal code) r p q w (o, signal_is, code_is) =
    (r ∙ o, signal_is, code_is)

-- While the father can read, the child holds the writing end.
child_writes :
    (k : ℕ) (s : State) (c : Child) → WrittenBy k c s → s.father_rfd ≡ true → s.child_wfd ≡ true
child_writes k s Child.starting (same, own_wfd) o = own_wfd
child_writes k s writing (same, own_rfd, own_wfd) o = own_wfd
child_writes k s (killed signal) (gone, is) o = absurd (ground (arith, gone, o))

module _ {pid : ℕ} {s : State} (v : Piped pid s) where
  at : {f : Father} → s.father ≡ f → Ended f s
  at e = subst (λ f. Ended f s) e v.ended

  by : {c : Child} → s.child ≡ c → WrittenBy v.written.0 c s
  by e = subst (λ c. WrittenBy v.written.0 c s) e v.written.2

  write_message-Ended :
      (f : Father) → s.father_rfd ≡ true → Ended f s → Ended f (write_message pid s)
  unfolding write_message
  write_message-Ended Father.starting r (o, none_yet, all) =
      (o, none_yet, ap (λ l. l ++ info pid s.cnt) all)
  write_message-Ended reading r (o, none_yet, all) =
      (o, none_yet, ap (λ l. l ++ info pid s.cnt) all)
  write_message-Ended closing r o = o
  write_message-Ended waiting r o = absurd (ground (arith, r, o))
  write_message-Ended (reported signal code) r (o, signal_is, code_is) =
      absurd (ground (arith, r, o))

  write_message-Piped : s.child ≡ writing → reader_open s ≡ true → Piped pid (write_message pid s)
  unfolding write_message
  write_message-Piped c open_end =
      let (k, e, all) = v.written in
      let (same, own_rfd, own_wfd) = by c in
      record {
        written = (
          suc k,
          ap (λ l. l ++ info pid s.cnt) e ∙ ap (λ i. messages pid k ++ info pid i) same,
          subst (λ x. WrittenBy (suc k) x (write_message pid s)) (sym c)
              (omega (arith, same), own_rfd, own_wfd),
        );
        heard = Heard-append s.sent (info pid s.cnt) s.printed v.heard;
        ended = write_message-Ended s.father (ground (arith, open_end, own_rfd)) v.ended;
      }

  father_process_read-Piped :
      (n : ℕ)
      → s.father ≡ reading
      → n ≤ length s.pipe
      → n ≤ room
      → Piped pid (father_process_read n s)
  unfolding father_process_read
  father_process_read-Piped n e h r =
      let (o, none_yet, all) = at e in
      record {
        written = (
          v.written.0,
          v.written.1,
          same_child v.written.0 s _ s.child refl refl refl (λ q. q) v.written.2,
        );
        heard =
            subst (Heard s.sent) (ap₂ (λ l t. c_string (take n l) ∷ t) (sym all) (sym none_yet))
              (once n r (subst (λ l. n ≤ length l) all h));
        ended = o;
      }

  Step-Piped : {capacity : ℕ} {s' : State} → Step pid capacity s s' → Piped pid s'
  unfolding report
  Step-Piped (child_closes c) =
      let (same, own_wfd) = by c in
      record {
        written = (v.written.0, v.written.1, (same, refl, own_wfd));
        heard = v.heard;
        ended = same_father s _ s.father refl refl refl refl v.ended;
      }
  Step-Piped (writes c o h) = write_message-Piped c o
  Step-Piped (breaks c o) =
      let (same, own_rfd, own_wfd) = by c in
      record {
        written = (v.written.0, v.written.1, (ground (arith, o, own_rfd), refl));
        heard = v.heard;
        ended = same_father s _ s.father refl refl refl refl v.ended;
      }
  Step-Piped (father_closes e) = record {
    written = (
      v.written.0,
      v.written.1,
      same_child v.written.0 s _ s.child refl refl refl (λ q. q) v.written.2,
    );
    heard = v.heard;
    ended = at e;
  }
  Step-Piped (reads n e l h r) = father_process_read-Piped n e h r
  Step-Piped (fails e) = record {
    written = (
      v.written.0,
      v.written.1,
      same_child v.written.0 s _ s.child refl refl refl (λ q. q) v.written.2,
    );
    heard = v.heard;
    ended = (at e).0;
  }
  Step-Piped (ends e p o) =
      let held = child_writes v.written.0 s s.child v.written.2 (at e).0 in
      absurd (ground (arith, held, o))
  Step-Piped (closes e) = record {
    written = (
      v.written.0,
      v.written.1,
      same_child v.written.0 s _ s.child refl refl refl (λ q. refl) v.written.2,
    );
    heard = v.heard;
    ended = refl;
  }
  Step-Piped (waits e k) = record {
    written = (
      v.written.0,
      v.written.1,
      same_child v.written.0 s _ s.child refl refl refl (λ q. q) v.written.2,
    );
    heard = v.heard;
    ended =
        let (signal_is, code_is) = killed-report v.written.0 s _ (by k) in
        (at e, signal_is, code_is);
  }

-- Whatever the interleaving, the capacity of the pipe and how many bytes the read gives: what has
-- been sent is a run of the child's messages, in the order of their numbers from 0; the father
-- prints at most one text, the first bytes sent, at most 1023 of them; a child that writes has
-- closed its own reading end and holds the writing end, and the father holds his reading end until
-- he has closed it to wait, so that the child is killed, by the signal 13 of a broken pipe, only
-- after that; and what the father reports, if anything, is that signal and the code 0.
pub Reach-Piped : {pid capacity : ℕ} {s : State} → Reach pid capacity s → Piped pid s
Reach-Piped begins = record {
  written = (0, refl, (refl, refl));
  heard = nothing;
  ended = (refl, refl, refl);
}
Reach-Piped (later r t) = Step-Piped (Reach-Piped r) t
