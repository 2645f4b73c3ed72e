-- ===== src/Pax/Stamp.antt =====
-- Time stamps that are printed and read back.
use native.Mathlib.Nat.{pow-suc}
use tar.Base.{
  ℕ, zero, suc, ◌+◌, ◌-◌, ◌*◌, ◌/◌, ◌%◌, ◌^◌, ◌<◌, ◌≤◌, ◌≡◌, refl, sym, ◌∙◌, ap, arith, true, false,
  some, [], ◌∷◌, ◌++◌, length, length-append, ◌==◌, Bool-cases, inl, inr,
}
use tar.Base.Text.{Bytes}
use tar.Decimal.{all_digits, DecimalPrinter}
use tar.Decimal.Parse.{ends_digits, stoint_signed-to_str}
use tar.Pax.Time.{
  billion, Timespec, put_digits, drop_zeros, code_ns_fraction, valid_ns, code_timespec, Fraction,
  fraction_loop, starts_with, with_fraction, decode_fraction, decode_parsed, decode_timespec,
  decode_time, judge_time, decoded_time,
}

-- One more digit.
one_digit :
    (d v m : ℕ) (done : Bytes)
    → d < 9
    → fraction_loop d v false ((b'0' + m % 10) ∷ done)
      ≡ fraction_loop (suc d) (10 * v + m % 10) false done
unfolding fraction_loop
one_digit d v m done h = ground arith

spread : (v p a b : ℕ) → 10 * (v * p + a) + b ≡ v * (10 * p) + (10 * a + b)
spread v p a b = grind arith

shifted : (v p q m : ℕ) → q ≡ 10 * p → 10 * (v * p + m / 10) + m % 10 ≡ v * q + m
shifted v p q m h =
    spread v p (m / 10) (m % 10)
    ∙ ap (λ (k : ℕ). v * k + (10 * (m / 10) + m % 10)) (sym h)
    ∙ ap (λ (k : ℕ). v * q + k) (omega arith)

fraction_loop-put_digits :
    (i d v m : ℕ) (done : Bytes)
    → d + i ≤ 9
    → m < 10 ^ i
    → fraction_loop d v false (put_digits m i done)
      ≡ fraction_loop (d + i) (v * 10 ^ i + m) false done
unfolding put_digits
fraction_loop-put_digits zero d v m done h small =
    ap (λ (k : ℕ). fraction_loop k v false done) {x = d} {y = d + 0} (omega arith)
    ∙ ap (λ (k : ℕ). fraction_loop (d + 0) k false done) {x = v} {y = v * 10 ^ 0 + m} (omega arith)
fraction_loop-put_digits (suc i) d v m done h small =
    fraction_loop-put_digits i d v (m / 10) ((b'0' + m % 10) ∷ done) (omega arith)
      (omega (arith, pow-suc 10 i))
    ∙ one_digit (d + i) (v * 10 ^ i + m / 10) m done (omega arith)
    ∙ ap (λ (k : ℕ). fraction_loop (suc (d + i)) k false done)
        (shifted v (10 ^ i) (10 ^ suc i) m (omega (arith, pow-suc 10 i)))
    ∙ ap (λ (k : ℕ). fraction_loop k (v * 10 ^ suc i + m) false done) {x = suc (d + i)}
        {y = d + suc i} (omega arith)

-- The loop stops at the end of the text, with `ns` in units of `10 ^ i` of a nanosecond.
abbrev Reads : ℕ → ℕ → Fraction → Type 0
Reads ns i f = (f.ns * 10 ^ (9 - f.digits) ≡ ns * 10 ^ (9 - i)) × (f.rest ≡ [])

twice : (m p : ℕ) → m * (10 * p) ≡ 10 * m * p
twice m p = grind arith

tens : (ns p q : ℕ) → q ≡ 10 * p → (ns % 10 == 0) ≡ true → ns / 10 * q ≡ ns * p
tens ns p q h k =
    ap (λ (r : ℕ). ns / 10 * r) h
    ∙ twice (ns / 10) p
    ∙ ap (λ (r : ℕ). r * p) {x = 10 * (ns / 10)} {y = ns} (ground arith)

drop_zeros_next :
    (ns i : ℕ) → (ns % 10 == 0) ≡ true → drop_zeros ns (suc i) ≡ drop_zeros (ns / 10) i
unfolding drop_zeros
drop_zeros_next ns i h = ground arith

drop_zeros_stop :
    (ns i : ℕ) → (ns % 10 == 0) ≡ false → drop_zeros ns (suc i) ≡ put_digits ns (suc i) []
unfolding drop_zeros
drop_zeros_stop ns i h = ground arith

read_all :
    (i m : ℕ)
    → i ≤ 9
    → m < 10 ^ i
    → fraction_loop 0 0 false (put_digits m i [])
      ≡ record { ns = m; digits = i; trailing_nonzero = false; rest = [] }
unfolding fraction_loop
read_all i m h small =
    fraction_loop-put_digits i 0 0 m [] (omega arith) small
    ∙ ap (λ (k : ℕ). fraction_loop k (0 * 10 ^ i + m) false []) {x = 0 + i} {y = i} (omega arith)
    ∙ ap (λ (k : ℕ). fraction_loop i k false []) {x = 0 * 10 ^ i + m} {y = m} (omega arith)

drop_zeros-Reads :
    (i ns : ℕ)
    → 1 ≤ ns
    → ns < 10 ^ i
    → i ≤ 9
    → Reads ns i (fraction_loop 0 0 false (drop_zeros ns i))
drop_zeros-Reads zero ns pos small h = absurd (omega arith)
drop_zeros-Reads (suc i) ns pos small h = elim (Bool-cases (ns % 10 == 0)) [
  | inl round ↦
      let some_left : 1 ≤ ns / 10 = ground arith in
      let r = drop_zeros-Reads i (ns / 10) some_left (omega (arith, pow-suc 10 i)) (omega arith) in
      let unit : 10 ^ (9 - i) ≡ 10 * 10 ^ (9 - suc i) =
        ap (λ (k : ℕ). 10 ^ k) {x = 9 - i} {y = suc (9 - suc i)} (omega arith)
        ∙ omega (arith, pow-suc 10 (9 - suc i)) in
      rw (drop_zeros_next ns i round)
        (r.0 ∙ tens ns (10 ^ (9 - suc i)) (10 ^ (9 - i)) unit round, r.1)
  | inr last ↦ rw (drop_zeros_stop ns i last) (rw (read_all (suc i) ns h small) (refl, refl))
]

ends_digits-code_ns_fraction : (ns : ℕ) → ends_digits (code_ns_fraction ns) ≡ true
unfolding code_ns_fraction
ends_digits-code_ns_fraction ns = ground arith

-- What `decode_fraction` makes of the fraction, behind text that begins with no minus sign.
decode_fraction-code :
    (arg : Bytes) (s ns : ℕ)
    → starts_with b'-' arg ≡ false
    → ns < billion
    → decode_fraction arg
        (record { value = s; arglim = code_ns_fraction ns; overflow = false })
        true
        (code_ns_fraction ns)
      ≡ (record { tv_sec = s; tv_nsec = some ns }, [])
unfolding code_ns_fraction decode_fraction with_fraction
decode_fraction-code arg s ns plain small = elim (Bool-cases (ns == 0)) [
  | inl whole ↦ rw whole (ground arith)
  | inr part ↦
      let r = drop_zeros-Reads 9 ns (ground arith) small (omega arith) in
      let f = fraction_loop 0 0 false (drop_zeros ns 9) in
      rw part (
        rw plain (
          ap {B = Timespec × Bytes} (λ (k : ℕ). (record { tv_sec = s; tv_nsec = some k }, f.rest))
            (r.0 ∙ omega arith)
          ∙ ap {B = Timespec × Bytes}
              (λ (rest : Bytes). (record { tv_sec = s; tv_nsec = some ns }, rest)) r.1))
]

starts_with-digits :
    (cs rest : Bytes) → all_digits cs ≡ true → 1 ≤ length cs → starts_with b'-' (cs ++ rest) ≡ false
starts_with-digits [] rest h n = absurd (omega arith)
starts_with-digits (c ∷ cs) rest h n = ground arith

code_timespec-positive :
    (timetostr : ℕ → Bytes) (s ns : ℕ)
    → s < 2 ^ 63
    → ns < billion
    → code_timespec timetostr (record { tv_sec = s; tv_nsec = some ns })
      ≡ timetostr s ++ code_ns_fraction ns
unfolding code_timespec valid_ns
code_timespec-positive timetostr s ns h small = ground arith

decode_parsed-behind :
    (arg rest : Bytes) (s : ℕ)
    → length rest < length arg
    → decode_parsed arg true (record { value = s; arglim = rest; overflow = false })
      ≡ decode_fraction arg (record { value = s; arglim = rest; overflow = false }) true rest
unfolding decode_parsed
decode_parsed-behind arg rest s h = ground arith

-- `decode_timespec` reads back to the nanosecond what `code_timespec` prints of a valid time stamp
-- that is not before 1970, where `timetostr` prints its seconds as decimal digits, and reads the
-- text to its end.
pub decode_timespec-code_timespec :
    (printer : DecimalPrinter) (timetostr : ℕ → Bytes) (s ns : ℕ)
    → timetostr s ≡ printer.to_str s
    → s < 2 ^ 63
    → ns < billion
    → decode_timespec (code_timespec timetostr (record { tv_sec = s; tv_nsec = some ns })) true
      ≡ (record { tv_sec = s; tv_nsec = some ns }, [])
unfolding decode_timespec
decode_timespec-code_timespec printer timetostr s ns prints h small =
    let rest = code_ns_fraction ns in
    let digits = printer.to_str s in
    rw (code_timespec-positive timetostr s ns h small) (
      rw prints (
        rw
          (stoint_signed-to_str printer s (2 ^ 63 - 1) rest h (omega arith)
            (ends_digits-code_ns_fraction ns))
          (decode_parsed-behind (digits ++ rest) rest s
              (omega (arith, length-append digits rest, printer.to_str_nonempty s))
            ∙ decode_fraction-code (digits ++ rest) s ns
                (starts_with-digits digits rest (printer.to_str-all_digits s)
                  (printer.to_str_nonempty s))
                small)))

-- `decode_time` accepts what `code_timespec` prints of a valid time stamp that is not before 1970,
-- where `timetostr` prints its seconds as decimal digits, as that time stamp.
pub decode_time-code_timespec :
    (printer : DecimalPrinter) (timetostr : ℕ → Bytes) (s ns : ℕ)
    → timetostr s ≡ printer.to_str s
    → s < 2 ^ 63
    → ns < billion
    → decode_time (code_timespec timetostr (record { tv_sec = s; tv_nsec = some ns }))
      ≡ decoded_time (record { tv_sec = s; tv_nsec = some ns })
unfolding decode_time judge_time
decode_time-code_timespec printer timetostr s ns prints h small =
    rw (decode_timespec-code_timespec printer timetostr s ns prints h small) refl
