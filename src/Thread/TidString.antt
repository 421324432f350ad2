-- ===== src/Thread/TidString.antt =====
-- What the string of a thread's id says.
use empool.Base.{
  ℕ, zero, suc, ◌+◌, ◌-◌, ◌*◌, ◌/◌, ◌%◌, ◌^◌, ◌≤◌, ◌<◌, ◌≡◌, refl, ◌∙◌, ap, List, [], ◌∷◌, ◌++◌,
  ◌==◌, length, arith, if◌then◌else◌, length-append, Bool-cases, inl, inr,
}
use empool.Thread.Locals.{
  take, replicate, digits, format_tid, new_locals, cache_tid, tid_of, is_main_thread,
}

-- The number that a text spells behind `n`, spaces left out, as `atoi` reads it.
pub read_number : ℕ → List ℕ → ℕ
read_number n [] = n
read_number n (c ∷ s) = read_number (if c == b' ' then n else n * 10 + (c - b'0')) s

-- A number has no more digits than places.
abbrev Fits : (places : ℕ) → ℕ → Type 0
Fits zero n = n ≡ 0
Fits (suc places) n = Fits places (n / 10)

-- The last digit behind the others.
read-last_digit :
    (n : ℕ) (out : List ℕ) → read_number (n / 10) ((b'0' + n % 10) ∷ out) ≡ read_number n out
unfolding read_number
read-last_digit n out = ap (λ m. read_number m out) (ground arith)

read-digits :
    (places n : ℕ) (out : List ℕ)
    → Fits places n
    → read_number 0 (digits places n out) ≡ read_number n out
unfolding digits
read-digits zero n out fits = ground (arith, fits)
read-digits (suc places) n out fits = elim (Bool-cases (n == 0)) [
  | inl e ↦ ground (arith, e)
  | inr e ↦
      ground
        (arith, e, read-digits places (n / 10) ((b'0' + n % 10) ∷ out) fits, read-last_digit n out)
]

length-digits_le :
    (places n : ℕ) (out : List ℕ) → length (digits places n out) ≤ places + length out
unfolding digits
length-digits_le zero n out = omega arith
length-digits_le (suc places) n out =
    ground (arith, length-digits_le places (n / 10) ((b'0' + n % 10) ∷ out))

read-spaces : (k n : ℕ) (s : List ℕ) → read_number n (replicate k b' ' ++ s) ≡ read_number n s
unfolding read_number replicate
read-spaces zero n s = refl
read-spaces (suc k) n s = read-spaces k n s

read-last : (n : ℕ) (s : List ℕ) → read_number n (s ++ b' ' ∷ []) ≡ read_number n s
unfolding read_number
read-last n [] = refl
read-last n (c ∷ s) = read-last (if c == b' ' then n else n * 10 + (c - b'0')) s

length-replicate : (k c : ℕ) → length (replicate k c) ≡ k
unfolding replicate
length-replicate zero c = refl
length-replicate (suc k) c = omega (arith, length-replicate k c)

take-all : (k : ℕ) (s : List ℕ) → length s ≤ k → take k s ≡ s
unfolding take
take-all zero [] h = refl
take-all zero (c ∷ s) h = absurd (omega arith)
take-all (suc k) [] h = refl
take-all (suc k) (c ∷ s) h = ap (λ t. c ∷ t) (take-all k s (omega arith))

abbrev text_of : ℕ → List ℕ
text_of n = if n == 0 then b'0' ∷ [] else digits 10 n []

length-format_tid :
    (n : ℕ) → length (format_tid n) ≡ (5 - length (text_of n)) + (length (text_of n) + 1)
unfolding format_tid
length-format_tid n = omega (
  arith,
  length-append (replicate (5 - length (text_of n)) b' ') (text_of n ++ b' ' ∷ []),
  length-replicate (5 - length (text_of n)) b' ',
  length-append (text_of n) (b' ' ∷ []),
)

length-format_tid_bounds : (n : ℕ) → (6 ≤ length (format_tid n)) × (length (format_tid n) ≤ 11)
length-format_tid_bounds n =
    let short : length (text_of n) ≤ 10 = ground (arith, length-digits_le 10 n []) in
    (omega (arith, length-format_tid n), omega (arith, length-format_tid n))

read-format_tid : (n : ℕ) → 0 < n → n < 2 ^ 31 → read_number 0 (format_tid n) ≡ n
unfolding format_tid read_number
read-format_tid n pos fits =
    read-spaces (5 - length (text_of n)) 0 (text_of n ++ b' ' ∷ [])
    ∙ read-last 0 (text_of n)
    ∙ ground (arith, read-digits 10 n [] (omega arith))

-- For a thread with an id of type `int` above 0, as the system gives it, the first `CacheTid` keeps
-- the id, writes a text that reads as the id, all of which fits into `t_tidString`, and keeps its
-- length, which is 6 to 11; after that `CacheTid` changes nothing, `Tid` gives the id, and
-- `IsMainThread` tells whether it is the id of the process.
pub tid_string_roundtrip :
    (gettid : ℕ)
    → 0 < gettid
    → gettid < 2 ^ 31
    → let t = cache_tid gettid new_locals in
      (t.cached_tid ≡ gettid)
      × (read_number 0 t.tid_string ≡ gettid)
      × (length t.tid_string ≡ t.tid_string_length)
      × (6 ≤ t.tid_string_length)
      × (t.tid_string_length ≤ 11)
      × ((other : ℕ)
          → (cache_tid other t ≡ t)
            × (tid_of other t ≡ (t, gettid))
            × ((getpid : ℕ) → is_main_thread getpid other t ≡ (t, gettid == getpid)))
unfolding cache_tid tid_of is_main_thread
tid_string_roundtrip gettid pos fits =
    let all = take-all 31 (format_tid gettid) (omega (arith, length-format_tid_bounds gettid)) in
    (
      refl,
      ap (read_number 0) all ∙ read-format_tid gettid pos fits,
      ap length all,
      (length-format_tid_bounds gettid).0,
      (length-format_tid_bounds gettid).1,
      λ other. (ground arith, ground arith, λ getpid. ground arith),
    )
