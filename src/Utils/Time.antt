-- ===== src/Utils/Time.antt =====
-- inc/Utils.h: the conversions between time stamps and dates.
use tiny_im.Prelude.{◌≡◌, refl, ap, Bool, false, Option, none, some, Bytes, codes, c_str}
use tiny_im.Prelude.Int.{ℤ}

-- The calls of the C library: `std::tm`, `localtime_r`, `put_time`, `get_time` and `mktime`.
record TimeLib : Type 1 where
  pub Tm : Type 0
  -- A null result is `none`.
  pub localtime : ℤ → Option Tm
  pub put_time : Tm → Bytes → Bytes
  -- The first argument is the record that the call fills in; a failed stream is `none`.
  pub get_time : Tm → Bytes → Bytes → Option Tm
  -- `std::tm tm = {}`.
  pub zeroed : Tm
  pub mktime : Tm → ℤ

abbrev default_format : Bytes
default_format = codes "%Y-%m-%d %H:%M:%S"

module _ (lib : TimeLib) where
  open lib use {Tm, localtime, put_time, get_time, zeroed, mktime}

  -- The format is passed on as a C string.
  unfoldable format_date : Tm → Bytes → Bytes
  format_date tm format = put_time tm (c_str format)

  -- A time that has no local form is an exception.
  unfoldable unix_timestamp_to_date : ℤ → Option Bytes
  unix_timestamp_to_date timestamp = elim (localtime timestamp) [
    | none ↦ none
    | some tm ↦ some (put_time tm default_format)
  ]

  -- A date that cannot be read is an exception.
  unfoldable date_to_unix_timestamp : Bytes → Bytes → Option ℤ
  date_to_unix_timestamp date format = elim (get_time zeroed date (c_str format)) [
    | none ↦ none
    | some tm ↦ some (mktime tm)
  ]

-- What the C library documents of a time that is standard time where it is printed.
record TimeLaws (lib : TimeLib) : Type 0 where
  -- The record whose six printed fields are those of another, and whose other fields are 0.
  printed : lib.Tm → lib.Tm
  is_dst : lib.Tm → Bool
  get-put :
      (tm : lib.Tm)
      → lib.get_time lib.zeroed (lib.put_time tm default_format) default_format ≡ some (printed tm)
  -- `mktime` takes tm_isdst = 0 as standard time, and reads neither the week day nor the day of the
  -- year.
  mktime-localtime :
      (t : ℤ) (tm : lib.Tm)
      → lib.localtime t ≡ some tm
      → is_dst tm ≡ false
      → lib.mktime (printed tm) ≡ t

-- A time stamp is read back from its date, if it lies in standard time and the C library keeps its
-- laws.
date_to_unix_timestamp-unix_timestamp_to_date :
    (lib : TimeLib) (laws : TimeLaws lib) (t : ℤ) (tm : lib.Tm)
    → lib.localtime t ≡ some tm
    → laws.is_dst tm ≡ false
    → (date : Bytes) × (unix_timestamp_to_date lib t ≡ some date)
      × (date_to_unix_timestamp lib date default_format ≡ some t)
unfolding unix_timestamp_to_date date_to_unix_timestamp c_str
date_to_unix_timestamp-unix_timestamp_to_date lib laws t tm there standard = (
  lib.put_time tm default_format,
  rw (there, unix_timestamp_to_date) refl,
  rw (laws.get-put tm, date_to_unix_timestamp)
      (ap some (laws.mktime-localtime t tm there standard)),
)
