-- ===== src/Vault/Timestamps.antt =====
-- vault/types.go: Timestamp and its JSON. time.Format and time.Parse at RFC 3339 and the JSON of a
-- string are parameters; a time is a count of nanoseconds from the zero time.
use omnivault.Base.{ℕ, Bytes, ◌≡◌, refl, ◌∙◌, ap, ◌<◌, ◌/◌, ◌*◌}
use omnivault.Vault.Types.{Time}
use omnivault.Vault.Interface.{Result, ok, err, panic, ◌>>=◌, Clock}

pub record TimeCodec : Type 0 where
  pub format : Time → Bytes
  pub parse : Bytes → Result Time
  pub marshal_string : Bytes → Result Bytes
  pub unmarshal_string : Bytes → Result Bytes

pub record Timestamp : Type 0 where
  pub time : Time

abbrev pub new_timestamp : Time → Timestamp
new_timestamp t = record { time = t }

-- The first reading of the clock.
abbrev pub now : Clock → Timestamp
now clock = record { time = clock 0 }

module _ (codec : TimeCodec) where
  open codec use {format, parse, marshal_string, unmarshal_string}

  unfoldable pub marshal_json : Timestamp → Result Bytes
  marshal_json t = marshal_string (format t.time)

  abbrev pub replaced : Timestamp → Result Time → Result (Unit {0}) × Timestamp
  replaced t (ok parsed) = (ok tt, record t { time = parsed })
  replaced t (err e) = (err e, t)
  replaced t panic = (panic, t)

  -- The error, and what the timestamp then is.
  unfoldable pub unmarshal_json : Timestamp → Bytes → Result (Unit {0}) × Timestamp
  unmarshal_json t bytes = replaced t (unmarshal_string bytes >>= parse)

-- A second, and the first second of the year 10000, in nanoseconds.
abbrev pub second : ℕ
second = 1000000000

abbrev pub year_10000 : Time
year_10000 = 315537897600000000000

-- The time without its fraction of a second.
abbrev pub whole_seconds : Time → Time
whole_seconds t = t / second * second

-- RFC 3339 has no fractions in the layout that is used, and four digits for the year; the JSON of such
-- a text is read as the text.
pub record IsRfc3339 (codec : TimeCodec) : Type 0 where
  pub parse-format :
      (t : Time) → t < year_10000 → codec.parse (codec.format t) ≡ ok (whole_seconds t)
  pub format_whole : (t : Time) → codec.format (whole_seconds t) ≡ codec.format t
  pub quoted :
      (t : Time)
      → (b : Bytes) × (codec.marshal_string (codec.format t) ≡ ok b)
        × (codec.unmarshal_string b ≡ ok (codec.format t))

-- The JSON of a timestamp before the year 10000 is read back, over any timestamp, as its time without
-- the fraction of a second, and that is written as the same JSON again.
pub unmarshal_json-marshal_json :
    (codec : TimeCodec) (law : IsRfc3339 codec) (t old : Timestamp)
    → t.time < year_10000
    → (bytes : Bytes) × (marshal_json codec t ≡ ok bytes)
      × (unmarshal_json codec old bytes ≡ (ok tt, new_timestamp (whole_seconds t.time)))
      × (marshal_json codec (unmarshal_json codec old bytes).1 ≡ ok bytes)
unfolding marshal_json unmarshal_json
unmarshal_json-marshal_json codec law t old h =
    let (bytes, w, r) = law.quoted t.time in
    (
      bytes,
      w,
      rw (r, law.parse-format t.time h) refl,
      rw (r, law.parse-format t.time h) (ap codec.marshal_string (law.format_whole t.time) ∙ w),
    )
