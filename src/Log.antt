-- ===== src/Log.antt =====
-- Http/Log.hpp (each server keeps the same file): the levels, the time stamp, and where a record is
-- written. What the C library gives is an argument: the text that the format of a record and its
-- arguments stand for, the fields of localtime, the process id, and whether the file opens.
pub mod Sinks
pub mod Stamp
mod Tests
use linux_cpp.Common.{
  ℕ, suc, ◌+◌, ◌-◌, List, [], ◌∷◌, ◌++◌, Bool, true, false, if◌then◌else◌, ℤ, pos, negsuc, ◌+ℤ◌,
  eqb, Bytes, codes, to_string, length, take, ltb,
}
use linux_cpp.Socket.{c_string}

abbrev pub debug : ℤ
debug = pos 1

abbrev pub info : ℤ
info = pos 2

abbrev pub warning : ℤ
warning = pos 3

abbrev pub error : ℤ
error = pos 4

abbrev pub fatal : ℤ
fatal = pos 5

pub level_to_string : ℤ → Bytes
level_to_string level =
    if eqb level debug
    then codes "DEBUG"
    else if eqb level info
    then codes "INFO"
    else if eqb level warning
    then codes "WARNING"
    else if eqb level error
    then codes "ERROR"
    else if eqb level fatal
    then codes "FATAL"
    else codes "UNKNOWN"

-- `%d`
pub format_d : ℤ → Bytes
format_d (pos n) = to_string n
format_d (negsuc n) = b'-' ∷ to_string (suc n)

-- `%02d`: nothing but a digit is shorter than two characters.
abbrev pub pad : Bytes → Bytes
pad s = if ltb (length s) 2 then b'0' ∷ s else s

pub format_02d : ℤ → Bytes
unfolding format_d
format_02d n = pad (format_d n)

-- What `snprintf(buffer, size, ...)` leaves in the buffer before its zero.
abbrev pub snprintf : ℕ → Bytes → Bytes
snprintf size text = take (size - 1) text

-- struct tm
pub record Tm : Type 0 where
  pub tm_year : ℤ
  pub tm_mon : ℤ
  pub tm_mday : ℤ
  pub tm_hour : ℤ
  pub tm_min : ℤ
  pub tm_sec : ℤ

pub stamp : Tm → Bytes
unfolding format_d format_02d
stamp t =
    format_d (t.tm_year +ℤ pos 1900)
    ++ (b'-'
        ∷ (format_02d (t.tm_mon +ℤ pos 1)
            ++ (b'-'
                ∷ (format_02d t.tm_mday
                    ++ (b' '
                        ∷ (format_02d t.tm_hour
                            ++ (b':' ∷ (format_02d t.tm_min ++ (b':' ∷ format_02d t.tm_sec)))))))))

pub get_curr_time : Tm → Bytes
unfolding stamp
get_curr_time t = snprintf 128 (stamp t)

pub record LogMessage : Type 0 where
  pub level : Bytes
  pub id : ℤ
  pub filename : Bytes
  pub filenumber : ℤ
  pub curr_time : Bytes
  pub message_info : Bytes

-- A field, its bracket, and what follows.
abbrev pub field : Bytes → Bytes → Bytes
field s rest = s ++ (b']' ∷ rest)

-- `"[%s][%d][%s][%d][%s] %s"`
pub line : LogMessage → Bytes
unfolding format_d
line lg =
    b'['
    ∷ field (c_string lg.level) (
        b'['
        ∷ field (format_d lg.id) (
            b'['
            ∷ field (c_string lg.filename) (
                b'['
                ∷ field (format_d lg.filenumber)
                    (b'[' ∷ field (c_string lg.curr_time) (b' ' ∷ c_string lg.message_info)))))

abbrev pub screen_type : ℤ
screen_type = pos 1

abbrev pub file_type : ℤ
file_type = pos 2

-- The one log of the program, `lg`, with all that it has written.
pub record Log : Type 0 where
  pub type : ℤ
  pub screen : Bytes
  pub file : Bytes

pub construct : Log
construct = record { type = screen_type; screen = []; file = [] }

pub enable : ℤ → Log → Log
enable type log = record log { type = type }

pub flush_log_to_screen : LogMessage → Log → Log
unfolding line
flush_log_to_screen lg log = record log { screen = log.screen ++ line lg }

-- `opens` is what `is_open` answers.
pub flush_log_to_file : Bool → LogMessage → Log → Log
unfolding line
flush_log_to_file opens lg log =
    if opens then record log { file = log.file ++ c_string (snprintf 2048 (line lg)) } else log

pub flush_log : Bool → LogMessage → Log → Log
unfolding flush_log_to_screen flush_log_to_file
flush_log opens lg log =
    if eqb log.type screen_type
    then flush_log_to_screen lg log
    else if eqb log.type file_type
    then flush_log_to_file opens lg log
    else log

-- What the C library answers to one call of `logMessage`.
pub record Answers : Type 0 where
  pub pid : ℤ
  pub now : Tm
  pub text : Bytes
  pub opens : Bool

pub make_message : Bytes → ℤ → ℤ → Answers → LogMessage
unfolding level_to_string get_curr_time
make_message filename filenumber level a = record {
  level = level_to_string level;
  id = a.pid;
  filename = filename;
  filenumber = filenumber;
  curr_time = c_string (get_curr_time a.now);
  message_info = c_string (snprintf 1024 a.text);
}

pub log_message : Bytes → ℤ → ℤ → Answers → Log → Log
unfolding make_message flush_log
log_message filename filenumber level a log =
    flush_log a.opens (make_message filename filenumber level a) log

-- The calls that a program makes of its log, in the order in which they get `glock`.
pub data Call : Type 0 where
  enabled : (type : ℤ) → Call
  logged : (filename : Bytes) → (filenumber level : ℤ) → Answers → Call

pub call : Call → Log → Log
unfolding enable log_message
call (enabled type) log = enable type log
call (logged filename filenumber level a) log = log_message filename filenumber level a log

pub calls : List Call → Log → Log
unfolding call
calls [] log = log
calls (c ∷ cs) log = calls cs (call c log)
