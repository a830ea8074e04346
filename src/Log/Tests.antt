-- ===== src/Log/Tests.antt =====
-- Two records, to the screen and to the file.
use linux_cpp.Common.{
  ◌*◌, ◌≤◌, ◌≡◌, refl, ap, List, [], ◌∷◌, true, Bytes, pos, codes, length, arith, ◌+ℤ◌, to_string,
}
use linux_cpp.Socket.{c_string}
use linux_cpp.Log.{
  format_d, format_02d, line, construct, enable, file_type, Answers, make_message, level_to_string,
  stamp, get_curr_time, logged, enabled, Call, calls, info,
}
use linux_cpp.Log.Sinks.{Grown, calls-Grown, no_more, fitting, calls-same}
use linux_cpp.Log.Stamp.{Date, InRange, to_tm, get_curr_time-injective}

abbrev new_year : Date
new_year = record { year = 125; mon = 0; mday = 1; hour = 9; min = 5; sec = 59 }

new_year-InRange : InRange new_year
new_year-InRange = record {
  year_lt = omega arith;
  mon_lt = omega arith;
  mday_le = omega arith;
  hour_lt = omega arith;
  min_lt = omega arith;
  sec_le = omega arith;
}

new_year-stamp : get_curr_time (to_tm new_year) ≡ codes "2025-01-01 09:05:59"
unfolding get_curr_time stamp format_d format_02d to_string ◌+ℤ◌
new_year-stamp = refl

abbrev answers : Answers
answers = record { pid = pos 77; now = to_tm new_year; text = codes "hello\n"; opens = true }

abbrev hello_line : Bytes
hello_line = line (make_message (codes "Main.cc") (pos 12) info answers)

hello_line-text : hello_line ≡ codes "[INFO][77][Main.cc][12][2025-01-01 09:05:59] hello\n"
unfolding line make_message level_to_string c_string get_curr_time stamp format_d format_02d
    to_string ◌+ℤ◌
hello_line-text = refl

abbrev two_records : List Call
two_records =
    logged (codes "Main.cc") (pos 12) info answers
    ∷ logged (codes "Main.cc") (pos 12) info answers
    ∷ []

fits : length hello_line ≤ 2047
fits = omega (arith, ap length hello_line-text)

calls-same_example :
    (calls two_records (enable file_type construct)).file ≡ (calls two_records construct).screen
unfolding enable construct
calls-same_example =
    calls-same two_records (enable file_type construct) construct
      (fitting refl fits (fitting refl fits no_more)) refl refl refl

calls-Grown_example : Grown construct (calls (enabled file_type ∷ two_records) construct) (2047 * 2)
calls-Grown_example = calls-Grown (enabled file_type ∷ two_records) construct

get_curr_time-injective_example :
    (length (get_curr_time (to_tm new_year)) ≡ 19) × (new_year ≡ new_year)
get_curr_time-injective_example =
    get_curr_time-injective new_year new_year new_year-InRange new_year-InRange refl
