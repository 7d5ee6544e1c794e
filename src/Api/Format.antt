-- ===== src/Api/Format.antt =====
-- The formatting and the token encoding of web/src/api/client.ts. A formatted quantity is given by its
-- number, in hundredths where the source prints decimals, and its unit.
use embervm.Prelude.{
  ℕ, zero, suc, ◌*◌, ◌/◌, ◌%◌, ◌≤◌, ◌<◌, ◌&&◌, false, ltb, leb, ◌==◌, if◌then◌else◌, ◌+◌, ◌⊎◌, ◌≡◌,
  refl, arith,
}

pub data AgeUnit : Type 0 where
  seconds minutes hours days : AgeUnit

-- `fmtAge`, of the whole seconds since the time, 0 for a time to come.
unfoldable pub fmt_age : ℕ → ℕ × AgeUnit
fmt_age s =
    if ltb s 60
    then (s, seconds)
    else if ltb s 3600
    then (s / 60, minutes)
    else if ltb s 86400
    then (s / 3600, hours)
    else (s / 86400, days)

abbrev pub length_of : AgeUnit → ℕ
length_of seconds = 1
length_of minutes = 60
length_of hours = 3600
length_of days = 86400

pub data MemoryUnit : Type 0 where
  mib gib : MemoryUnit

-- `fmtMiB`, in hundredths of the unit; the decimals are printed where they are not 0.
unfoldable pub fmt_mib : ℕ → ℕ × MemoryUnit
fmt_mib n = if leb 1024 n && (n % 256) == 0 then (n * 100 / 1024, gib) else (n * 100, mib)

-- What the printed text stands for, in MiB.
abbrev pub mib_of : ℕ × MemoryUnit → ℕ
mib_of (v, mib) = v / 100
mib_of (v, gib) = v * 1024 / 100

pub data ByteUnit : Type 0 where
  byte kibibyte mebibyte gibibyte tebibyte : ByteUnit

abbrev pub bytes_of : ByteUnit → ℕ
bytes_of byte = 1
bytes_of kibibyte = 1024
bytes_of mebibyte = 1048576
bytes_of gibibyte = 1073741824
bytes_of tebibyte = 1099511627776

-- `units[i]` for `i = Math.min(units.length - 1, Math.floor(Math.log2(n) / 10))`.
unfoldable pub byte_unit : ℕ → ByteUnit
byte_unit n =
    if ltb n 1024
    then byte
    else if ltb n 1048576
    then kibibyte
    else if ltb n 1073741824
    then mebibyte
    else if ltb n 1099511627776
    then gibibyte
    else tebibyte

-- `v.toFixed(0)` and `v.toFixed(1)` of a quotient: the nearest, the greater of two that are as near.
abbrev pub to_fixed_0 : (numerator denominator : ℕ) → ℕ
to_fixed_0 n d = (2 * n + d) / (2 * d)

abbrev pub to_fixed_1 : (numerator denominator : ℕ) → ℕ
to_fixed_1 n d = (20 * n + d) / (2 * d)

-- Tenths of a unit of `d` bytes.
abbrev shown_in : (d n : ℕ) → ℕ
shown_in d n = if leb (100 * d) n then 10 * to_fixed_0 n d else to_fixed_1 n d

-- `fmtBytes`, in tenths of the unit; the decimal is printed below 100 units.
unfoldable pub fmt_bytes : ℕ → ℕ × ByteUnit
unfolding byte_unit
fmt_bytes n = let u = byte_unit n in if n == 0 then (0, byte) else (shown_in (bytes_of u) n, u)

-- `fmtKiB`
unfoldable pub fmt_kib : ℕ → ℕ × ByteUnit
unfolding fmt_bytes
fmt_kib n = fmt_bytes (n * 1024)

-- `fmtPct` of the fraction, in tenths of a percent.
unfoldable pub fmt_pct : (numerator denominator : ℕ) → ℕ
fmt_pct n d = if leb (10 * d) (100 * n) then 10 * to_fixed_0 (100 * n) d else to_fixed_1 (100 * n) d

shown_in-bounds :
    (u : ByteUnit) (n : ℕ)
    → let d = bytes_of u in
      (2 * (shown_in d n * d) ≤ 20 * n + (if leb (100 * d) n then 10 * d else d))
      × (20 * n ≤ 2 * (shown_in d n * d) + (if leb (100 * d) n then 10 * d else d))
shown_in-bounds byte n = (ground arith, ground arith)
shown_in-bounds kibibyte n = (ground arith, ground arith)
shown_in-bounds mebibyte n = (ground arith, ground arith)
shown_in-bounds gibibyte n = (ground arith, ground arith)
shown_in-bounds tebibyte n = (ground arith, ground arith)

fmt_bytes-shown_in : (n : ℕ) → fmt_bytes n ≡ (shown_in (bytes_of (byte_unit n)) n, byte_unit n)
unfolding fmt_bytes byte_unit
fmt_bytes-shown_in zero = refl
fmt_bytes-shown_in (suc n) = let e : (suc n == 0) ≡ false = ground arith in rw e refl

-- What is shown for a number of bytes is at most a twentieth of the unit off, or half a unit from 100 units
-- on; and the unit is one that the number reaches, but for B.
pub fmt_bytes-bounds :
    (n : ℕ)
    → let (t, u) = fmt_bytes n in
      let d = bytes_of u in
      (2 * (t * d) ≤ 20 * n + (if leb (100 * d) n then 10 * d else d))
      × (20 * n ≤ 2 * (t * d) + (if leb (100 * d) n then 10 * d else d))
      × ((d ≤ n) ⊎ (u ≡ byte))
unfolding byte_unit
fmt_bytes-bounds n =
    let (low, high) = shown_in-bounds (byte_unit n) n in
    rw (fmt_bytes-shown_in n) (low, high, ground arith)

-- An age is shown in whole units, rounded down, and in no more than 59 seconds, 59 minutes or 23 hours.
pub fmt_age-bounds :
    (s : ℕ) → let (n, u) = fmt_age s in (n * length_of u ≤ s) × (s < suc n * length_of u)
unfolding fmt_age
fmt_age-bounds s = ground arith

-- Nothing is lost in the text for an amount of memory: it is shown in GiB only where two decimals are
-- enough.
pub mib_of-fmt_mib : (n : ℕ) → mib_of (fmt_mib n) ≡ n
unfolding fmt_mib
mib_of-fmt_mib n = ground arith
