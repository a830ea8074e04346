-- ===== src/NonBlock/Echo.antt =====
-- What the loop echoes.
use linux_cpp.Common.{
  ℕ, suc, zero, ◌/◌, ◌%◌, ◌*◌, ◌<◌, ◌≡◌, refl, ◌∙◌, ap, List, [], ◌∷◌, true, false, ℤ, pos, negsuc,
  eqb, ltz, Bytes, Option, some, length, take, arith,
}
use linux_cpp.Socket.{c_string, filled}
use linux_cpp.Socket.CString.{Solid, c_string_fixed}
use linux_cpp.NonBlock.{
  nonblock, with_nonblock, set_non_block, Errno, ewouldblock, eintr, other, Read, Ending, read_done,
  read_failed, Echoed, failed, echo_once, echo,
}

-- What each answer of read is to the loop.
pub data Answers (read : ℕ → Read) : (rounds k : ℕ) → List Bytes → ℕ → Ending → Type 0 where
  ends : {rounds k : ℕ} → (read k).n ≡ pos 0 → Answers read (suc rounds) k [] 0 read_done
  breaks :
      {rounds k code : ℕ}
      → ltz (read k).n (pos 0) ≡ true
      → (read k).errno ≡ other code
      → Answers read (suc rounds) k [] 0 read_failed
  waits :
      {rounds k waited : ℕ} {texts : List Bytes} {ending : Ending}
      → ltz (read k).n (pos 0) ≡ true
      → (read k).errno ≡ ewouldblock
      → Answers read rounds (suc k) texts waited ending
      → Answers read (suc rounds) k texts (suc waited) ending
  retries :
      {rounds k waited : ℕ} {texts : List Bytes} {ending : Ending}
      → ltz (read k).n (pos 0) ≡ true
      → (read k).errno ≡ eintr
      → Answers read rounds (suc k) texts waited ending
      → Answers read (suc rounds) k texts waited ending
  gives :
      {rounds k waited : ℕ} {text : Bytes} {texts : List Bytes} {ending : Ending}
      → (read k).n ≡ pos (length text)
      → 0 < length text
      → take (length text) (read k).buffer ≡ text
      → Solid text
      → Answers read rounds (suc k) texts waited ending
      → Answers read (suc rounds) k (text ∷ texts) waited ending

abbrev echoed : List Bytes → ℕ → Ending → Option Echoed
echoed texts sleeps ending = some (record { texts = texts; sleeps = sleeps; ending = ending })

echo_once_zero :
    (r : Read) (rest : Option Echoed) → r.n ≡ pos 0 → echo_once r rest ≡ echoed [] 0 read_done
unfolding echo_once
echo_once_zero r rest e = rw e refl

negative : (x : ℤ) → ltz x (pos 0) ≡ true → (ltz (pos 0) x ≡ false) × (eqb x (pos 0) ≡ false)
negative (pos n) h = ground (arith, h)
negative (negsuc n) h = (refl, refl)

echo_once-failed :
    (r : Read) (rest : Option Echoed) (errno : Errno)
    → ltz r.n (pos 0) ≡ true
    → r.errno ≡ errno
    → echo_once r rest ≡ failed errno rest
unfolding echo_once
echo_once-failed r rest errno h e = rw ((negative r.n h).0, (negative r.n h).1, e) refl

echo_once_some :
    (r : Read) (text : Bytes) (texts : List Bytes) (waited : ℕ) (ending : Ending)
    → r.n ≡ pos (length text)
    → 0 < length text
    → take (length text) r.buffer ≡ text
    → Solid text
    → echo_once r (echoed texts waited ending) ≡ echoed (text ∷ texts) waited ending
unfolding echo_once
echo_once_some r text texts waited ending e l b p =
    let positive : ltz (pos 0) r.n ≡ true = ap (λ n. ltz (pos 0) n) e ∙ ground (arith, l) in
    let shown : c_string (filled r.n r.buffer) ≡ text =
      ap (λ n. c_string (filled n r.buffer)) e ∙ ap c_string b ∙ c_string_fixed text p in
    rw positive (ap (λ (t : Bytes). echoed (t ∷ texts) waited ending) shown)

-- The loop echoes every text that its reads give, in order; it sleeps once for each read that would
-- block, goes on after these and after each read that was interrupted, and ends at the end of the
-- input and at any other error, when the fuel is enough for its reads.
pub echo-Answers :
    (read : ℕ → Read) {rounds k waited : ℕ} {texts : List Bytes} {ending : Ending}
    → Answers read rounds k texts waited ending
    → echo read rounds k ≡ some (record { texts = texts; sleeps = waited; ending = ending })
unfolding echo failed
echo-Answers read {rounds = zero} a = elim a [ ]
echo-Answers read {rounds = suc rounds} {k = k} (ends e) =
    echo_once_zero (read k) (echo read rounds (suc k)) e
echo-Answers read {rounds = suc rounds} {k = k} (breaks {code = code} h e) =
    echo_once-failed (read k) (echo read rounds (suc k)) (other code) h e
echo-Answers read {rounds = suc rounds} {k = k} (waits h e a) =
    echo_once-failed (read k) (echo read rounds (suc k)) ewouldblock h e
    ∙ ap (failed ewouldblock) (echo-Answers read a)
echo-Answers read {rounds = suc rounds} {k = k} (retries h e a) =
    echo_once-failed (read k) (echo read rounds (suc k)) eintr h e ∙ echo-Answers read a
echo-Answers read {rounds = suc rounds} {k = k}
      (gives {waited = waited} {text = text} {texts = texts} {ending = ending} e l b p a) =
    ap (echo_once (read k)) (echo-Answers read a)
    ∙ echo_once_some (read k) text texts waited ending e l b p

-- O_NONBLOCK is set, and every flag below and above it is as it was.
pub set_non_block_lem :
    (fl : ℕ)
    → (flags : ℕ) × (set_non_block (pos fl) ≡ some flags)
      × (flags / nonblock % 2 ≡ 1)
      × (flags % nonblock ≡ fl % nonblock)
      × (flags / (2 * nonblock) ≡ fl / (2 * nonblock))
unfolding set_non_block with_nonblock
set_non_block_lem fl = (with_nonblock fl, refl, ground arith, ground arith, ground arith)
