-- ===== src/Log/Stamp.antt =====
-- The time stamps of the records.
use linux_cpp.Common.{
  ℕ, zero, suc, ◌+◌, ◌/◌, ◌%◌, ◌≤◌, ◌<◌, ◌⊎◌, inl, inr, ◌≡◌, refl, sym, ◌∙◌, ap, [], ◌∷◌, ◌++◌, pos,
  ◌+ℤ◌, to_string, decimal, length, get_or, take, Bytes, arith,
}
use linux_cpp.Log.{pad, format_d, format_02d, Tm, stamp, get_curr_time}

decimal-last : (fuel n : ℕ) → n < 10 → decimal (suc fuel) n ≡ (b'0' + n) ∷ []
unfolding decimal
decimal-last fuel n h = ground arith

decimal-more :
    (fuel n : ℕ) → 9 < n → decimal (suc fuel) n ≡ decimal fuel (n / 10) ++ (b'0' + n % 10) ∷ []
unfolding decimal
decimal-more fuel n h = ground arith

decimal-two :
    (fuel n : ℕ)
    → 9 < n
    → n < 100
    → decimal (suc (suc fuel)) n ≡ (b'0' + n / 10) ∷ (b'0' + n % 10) ∷ []
decimal-two fuel n h k =
    decimal-more (suc fuel) n h
    ∙ ap (λ l. l ++ (b'0' + n % 10) ∷ []) (decimal-last fuel (n / 10) (omega arith))

abbrev two : ℕ → Bytes
two n = (b'0' + n / 10) ∷ (b'0' + n % 10) ∷ []

two-small : (n : ℕ) → n < 10 → two n ≡ b'0' ∷ (b'0' + n) ∷ []
two-small n h = ground arith

small_or_not : (n : ℕ) → (n < 10) ⊎ (9 < n)
small_or_not n = omega arith

format_02d-two : (n : ℕ) → n < 100 → format_02d (pos n) ≡ two n
unfolding format_02d format_d to_string
format_02d-two zero h = refl
format_02d-two (suc n) h = elim (small_or_not (suc n)) [
  | inl k ↦ ap pad (decimal-last (suc n) (suc n) k) ∙ sym (two-small (suc n) k)
  | inr k ↦ ap pad (decimal-two n (suc n) k h)
]

-- A number of four digits.
abbrev four : ℕ → Bytes
four n =
    (b'0' + n / 10 / 10 / 10)
    ∷ (b'0' + n / 10 / 10 % 10)
    ∷ (b'0' + n / 10 % 10)
    ∷ (b'0' + n % 10)
    ∷ []

decimal-four : (fuel n : ℕ) → 999 < n → n < 10000 → decimal (suc (suc (suc (suc fuel)))) n ≡ four n
decimal-four fuel n h k =
    decimal-more (suc (suc (suc fuel))) n (omega arith)
    ∙ ap (λ l. l ++ (b'0' + n % 10) ∷ [])
        (decimal-more (suc (suc fuel)) (n / 10) (omega arith)
          ∙ ap (λ l. l ++ (b'0' + n / 10 % 10) ∷ [])
              (decimal-two fuel (n / 10 / 10) (omega arith) (omega arith)))

format_d-four : (n : ℕ) → 999 < n → n < 10000 → format_d (pos n) ≡ four n
unfolding format_d to_string
format_d-four (suc (suc (suc n))) h k = decimal-four n (suc (suc (suc n))) h k
format_d-four (suc (suc zero)) h k = absurd (omega arith)
format_d-four (suc zero) h k = absurd (omega arith)
format_d-four zero h k = absurd (omega arith)

-- A date and a time as localtime gives them.
pub record Date : Type 0 where
  pub year : ℕ  -- after 1900
  pub mon : ℕ
  pub mday : ℕ
  pub hour : ℕ
  pub min : ℕ
  pub sec : ℕ

abbrev pub to_tm : Date → Tm
to_tm d = record {
  tm_year = pos d.year;
  tm_mon = pos d.mon;
  tm_mday = pos d.mday;
  tm_hour = pos d.hour;
  tm_min = pos d.min;
  tm_sec = pos d.sec;
}

-- The ranges of the C standard, in the years 1900 to 9999.
pub record InRange (d : Date) : Type 0 where
  pub year_lt : d.year < 8100
  pub mon_lt : d.mon < 12
  pub mday_le : d.mday ≤ 31
  pub hour_lt : d.hour < 24
  pub min_lt : d.min < 60
  pub sec_le : d.sec ≤ 60

abbrev shown : Date → Bytes
shown d =
    four (d.year + 1900)
    ++ (b'-'
        ∷ (two (d.mon + 1)
            ++ (b'-'
                ∷ (two d.mday
                    ++ (b' ' ∷ (two d.hour ++ (b':' ∷ (two d.min ++ (b':' ∷ two d.sec)))))))))

add_pos : (a b : ℕ) → pos a +ℤ pos b ≡ pos (a + b)
unfolding ◌+ℤ◌
add_pos a b = ground arith

get_curr_time-shown : (d : Date) → InRange d → get_curr_time (to_tm d) ≡ shown d
unfolding get_curr_time stamp
get_curr_time-shown d r =
    let year =
      ap format_d (add_pos d.year 1900)
      ∙ format_d-four (d.year + 1900) (omega arith) (omega (arith, r.year_lt)) in
    let mon =
      ap format_02d (add_pos d.mon 1) ∙ format_02d-two (d.mon + 1) (omega (arith, r.mon_lt)) in
    let mday = format_02d-two d.mday (omega (arith, r.mday_le)) in
    let hour = format_02d-two d.hour (omega (arith, r.hour_lt)) in
    let min = format_02d-two d.min (omega (arith, r.min_lt)) in
    let sec = format_02d-two d.sec (omega (arith, r.sec_le)) in
    λ i. take 127 (
      year i
      ++ (b'-'
          ∷ (mon i
              ++ (b'-' ∷ (mday i ++ (b' ' ∷ (hour i ++ (b':' ∷ (min i ++ (b':' ∷ sec i))))))))))

-- A stamp is never cut off.
length-get_curr_time : (d : Date) → InRange d → length (get_curr_time (to_tm d)) ≡ 19
length-get_curr_time d r = ap length (get_curr_time-shown d r)

two-same : (a b : ℕ) → b'0' + a / 10 ≡ b'0' + b / 10 → b'0' + a % 10 ≡ b'0' + b % 10 → a ≡ b
two-same a b h k = omega arith

-- Two dates in the ranges of the C standard, in the years 1900 to 9999, with the same time stamp are
-- the same date and time, and the stamp has 19 characters.
pub get_curr_time-injective :
    (a b : Date)
    → InRange a
    → InRange b
    → get_curr_time (to_tm a) ≡ get_curr_time (to_tm b)
    → (length (get_curr_time (to_tm a)) ≡ 19) × (a ≡ b)
get_curr_time-injective a b r q e =
    let h : shown a ≡ shown b = sym (get_curr_time-shown a r) ∙ e ∙ get_curr_time-shown b q in
    let at : (i : ℕ) → get_or (shown a) i 0 ≡ get_or (shown b) i 0 =
      λ i. ap (λ l. get_or l i 0) h in
    let year : a.year ≡ b.year = omega (arith, at 0, at 1, at 2, at 3) in
    let mon : a.mon ≡ b.mon = omega (arith, at 5, at 6) in
    let mday : a.mday ≡ b.mday = omega (arith, at 8, at 9) in
    let hour : a.hour ≡ b.hour = omega (arith, at 11, at 12) in
    let min : a.min ≡ b.min = omega (arith, at 14, at 15) in
    let sec : a.sec ≡ b.sec = omega (arith, at 17, at 18) in
    (
      length-get_curr_time a r,
      λ i. record {
        year = year i;
        mon = mon i;
        mday = mday i;
        hour = hour i;
        min = min i;
        sec = sec i;
      },
    )
