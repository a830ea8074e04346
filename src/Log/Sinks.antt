-- ===== src/Log/Sinks.antt =====
-- What a program's calls of the log leave on the screen and in the file.
use mathlib.Core.List.{append_assoc, append-nil}
use linux_cpp.Common.{
  ℕ, zero, suc, ◌+◌, ◌*◌, ◌/◌, ◌≤◌, ◌<◌, ◌≡◌, refl, sym, ◌∙◌, ap, List, [], ◌∷◌, ◌++◌, Bool, true,
  if_both, ℤ, pos, negsuc, eqb, Bytes, to_string, decimal, length, length-append, take, arith, ltb,
}
use linux_cpp.Socket.{c_string}
use linux_cpp.Socket.CString.{Solid, Solid-append, c_string-Solid, c_string_fixed}
use linux_cpp.Log.{
  format_d, field, snprintf, LogMessage, line, screen_type, file_type, Log, enable, flush_log,
  flush_log_to_screen, flush_log_to_file, Answers, make_message, log_message, Call, enabled, logged,
  call, calls,
}

-- How many records are written.
abbrev pub records : List Call → ℕ
records [] = 0
records (enabled type ∷ cs) = records cs
records (logged filename filenumber level a ∷ cs) = suc (records cs)

length-take : (n : ℕ) (s : Bytes) → length (take n s) ≤ n
length-take zero s = omega arith
length-take (suc n) [] = omega arith
length-take (suc n) (x ∷ s) = omega (arith, length-take n s)

length-c_string : (s : Bytes) → length (c_string s) ≤ length s
unfolding c_string
length-c_string [] = omega arith
length-c_string (x ∷ s) = ground (arith, length-c_string s)

-- Both sinks go on from what they held, the file by at most `bound` bytes.
pub record Grown (log log' : Log) (bound : ℕ) : Type 0 where
  pub new_screen : Bytes
  pub new_file : Bytes
  pub screen_on : log'.screen ≡ log.screen ++ new_screen
  pub file_on : log'.file ≡ log.file ++ new_file
  pub file_bound : length new_file ≤ bound

unchanged :
    (log log' : Log) (bound : ℕ)
    → log'.screen ≡ log.screen
    → log'.file ≡ log.file
    → Grown log log' bound
unchanged log log' bound e f = record {
  new_screen = [];
  new_file = [];
  screen_on = e ∙ sym (append-nil log.screen);
  file_on = f ∙ sym (append-nil log.file);
  file_bound = omega arith;
}

flush_log-Grown :
    (opens : Bool) (lg : LogMessage) (log : Log) → Grown log (flush_log opens lg log) 2047
unfolding flush_log flush_log_to_screen flush_log_to_file
flush_log-Grown opens lg log =
    if_both (λ l. Grown log l 2047) (eqb log.type screen_type)
      (record {
        new_screen = line lg;
        new_file = [];
        screen_on = refl;
        file_on = sym (append-nil log.file);
        file_bound = omega arith;
      })
      (if_both (λ l. Grown log l 2047) (eqb log.type file_type)
        (if_both (λ l. Grown log l 2047) opens
          (record {
            new_screen = [];
            new_file = c_string (snprintf 2048 (line lg));
            screen_on = sym (append-nil log.screen);
            file_on = refl;
            file_bound =
                omega (arith, length-c_string (take 2047 (line lg)), length-take 2047 (line lg));
          })
          (unchanged log log 2047 refl refl))
        (unchanged log log 2047 refl refl))

Grown-trans : {a b c : Log} {m n k : ℕ} → Grown a b m → Grown b c n → m + n ≤ k → Grown a c k
Grown-trans {a} g h le = record {
  new_screen = g.new_screen ++ h.new_screen;
  new_file = g.new_file ++ h.new_file;
  screen_on =
      h.screen_on
      ∙ ap (λ l. l ++ h.new_screen) g.screen_on
      ∙ append_assoc a.screen g.new_screen h.new_screen;
  file_on =
      h.file_on ∙ ap (λ l. l ++ h.new_file) g.file_on ∙ append_assoc a.file g.new_file h.new_file;
  file_bound = omega (arith, length-append g.new_file h.new_file, g.file_bound, h.file_bound, le);
}

-- Whatever calls are made, what was on the screen and in the file stays there, and the file grows by
-- at most 2047 bytes for each record.
pub calls-Grown : (cs : List Call) (log : Log) → Grown log (calls cs log) (2047 * records cs)
unfolding calls call enable log_message
calls-Grown [] log = unchanged log log 0 refl refl
calls-Grown (enabled type ∷ cs) log =
    Grown-trans (unchanged log (enable type log) 0 refl refl) (calls-Grown cs (enable type log))
      (omega arith)
calls-Grown (logged filename filenumber level a ∷ cs) log =
    Grown-trans (flush_log-Grown a.opens (make_message filename filenumber level a) log)
      (calls-Grown cs (log_message filename filenumber level a log)) (omega arith)

decimal-Solid : (fuel n : ℕ) → Solid (decimal fuel n)
unfolding Solid decimal
decimal-Solid zero n = tt
decimal-Solid (suc fuel) n =
    if_both Solid (ltb n 10) (omega arith, tt)
      (Solid-append (decimal fuel (n / 10)) _ (decimal-Solid fuel (n / 10)) (omega arith, tt))

format_d-Solid : (x : ℤ) → Solid (format_d x)
unfolding Solid format_d to_string
format_d-Solid (pos n) = decimal-Solid (suc n) n
format_d-Solid (negsuc n) = (omega arith, decimal-Solid (suc (suc n)) (suc n))

field-Solid : (s : Bytes) (x : ℕ) (t : Bytes) → Solid s → 0 < x → Solid t → Solid (field s (x ∷ t))
unfolding Solid
field-Solid s x t h a b = Solid-append s (b']' ∷ x ∷ t) h (omega arith, (a, b))

line-Solid : (lg : LogMessage) → Solid (line lg)
unfolding Solid line
line-Solid lg = (
  omega arith,
  field-Solid (c_string lg.level) b'[' _ (c_string-Solid lg.level) (omega arith) (
      field-Solid (format_d lg.id) b'[' _ (format_d-Solid lg.id) (omega arith) (
        field-Solid (c_string lg.filename) b'[' _ (c_string-Solid lg.filename) (omega arith) (
          field-Solid (format_d lg.filenumber) b'[' _ (format_d-Solid lg.filenumber) (omega arith) (
            field-Solid (c_string lg.curr_time) b' ' _ (c_string-Solid lg.curr_time) (omega arith)
              (c_string-Solid lg.message_info))))),
)

take_all : (n : ℕ) (s : Bytes) → length s ≤ n → take n s ≡ s
take_all zero [] h = refl
take_all zero (x ∷ s) h = absurd (omega arith)
take_all (suc n) [] h = refl
take_all (suc n) (x ∷ s) h = ap (λ l. x ∷ l) (take_all n s (omega arith))

written_line :
    (lg : LogMessage) → length (line lg) ≤ 2047 → c_string (snprintf 2048 (line lg)) ≡ line lg
written_line lg h =
    ap c_string (take_all 2047 (line lg) h) ∙ c_string_fixed (line lg) (line-Solid lg)

-- Only records, each of at most 2047 bytes, and the file opens for each.
pub data Fitting : List Call → Type 0 where
  no_more : Fitting []
  fitting :
      {filename : Bytes} {filenumber level : ℤ} {a : Answers} {cs : List Call}
      → a.opens ≡ true
      → length (line (make_message filename filenumber level a)) ≤ 2047
      → Fitting cs
      → Fitting (logged filename filenumber level a ∷ cs)

flush_log-type :
    (opens : Bool) (lg : LogMessage) (log : Log) → (flush_log opens lg log).type ≡ log.type
unfolding flush_log flush_log_to_file flush_log_to_screen
flush_log-type opens lg log =
    if_both (λ (l : Log). l.type ≡ log.type) (eqb log.type screen_type) refl
      (if_both (λ (l : Log). l.type ≡ log.type) (eqb log.type file_type)
        (if_both (λ (l : Log). l.type ≡ log.type) opens refl refl) refl)

flush_log-file :
    (opens : Bool) (lg : LogMessage) (log : Log)
    → log.type ≡ file_type
    → opens ≡ true
    → length (line lg) ≤ 2047
    → (flush_log opens lg log).file ≡ log.file ++ line lg
unfolding flush_log flush_log_to_file flush_log_to_screen
flush_log-file opens lg log e o h =
    rw (e, flush_log, flush_log_to_file, o) (ap (λ l. log.file ++ l) (written_line lg h))

flush_log-screen :
    (opens : Bool) (lg : LogMessage) (log : Log)
    → log.type ≡ screen_type
    → (flush_log opens lg log).screen ≡ log.screen ++ line lg
unfolding flush_log flush_log_to_file flush_log_to_screen
flush_log-screen opens lg log e = rw e refl

-- When only records are written, each of at most 2047 bytes, and the file opens each time, then a log
-- that writes to its file writes the same as one that writes to the screen.
pub calls-same :
    (cs : List Call) (log_f log_s : Log)
    → Fitting cs
    → log_f.type ≡ file_type
    → log_s.type ≡ screen_type
    → log_f.file ≡ log_s.screen
    → (calls cs log_f).file ≡ (calls cs log_s).screen
unfolding calls call log_message
calls-same [] log_f log_s f e_f e_s e = e
calls-same (enabled type ∷ cs) log_f log_s f e_f e_s e = elim f [ ]
calls-same (logged filename filenumber level a ∷ cs) log_f log_s (fitting o h f) e_f e_s e =
    let lg = make_message filename filenumber level a in
    calls-same cs (flush_log a.opens lg log_f) (flush_log a.opens lg log_s) f
      (flush_log-type a.opens lg log_f ∙ e_f) (flush_log-type a.opens lg log_s ∙ e_s)
      (flush_log-file a.opens lg log_f e_f o h
        ∙ ap (λ l. l ++ line lg) e
        ∙ sym (flush_log-screen a.opens lg log_s e_s))
