-- ===== src/Thread/Locals.antt =====
-- The thread's own variables of src/System.cpp and include/empool/System.h. `snprintf` with the
-- format `"%5d "` does what C says: the decimal digits, at least five places, and a space.
use empool.Base.{
  ℕ, zero, suc, ◌+◌, ◌-◌, ◌/◌, ◌%◌, Bool, true, false, List, [], ◌∷◌, ◌++◌, ◌==◌, length,
  if◌then◌else◌,
}

-- The first `n` characters, and `n` times the same one.
unfoldable pub take {ℓ} : {A : Type ℓ} → ℕ → List A → List A
take zero xs = []
take (suc n) [] = []
take (suc n) (x ∷ xs) = x ∷ take n xs

unfoldable pub replicate {ℓ} : {A : Type ℓ} → ℕ → A → List A
replicate zero x = []
replicate (suc n) x = x ∷ replicate n x

-- An `int` has at most ten digits.
unfoldable pub digits : (places : ℕ) → ℕ → List ℕ → List ℕ
digits zero n out = out
digits (suc places) n out = elim (n == 0) [
  | true ↦ out
  | false ↦ digits places (n / 10) ((b'0' + n % 10) ∷ out)
]

-- `"%5d "` of a number that is not negative.
unfoldable pub format_tid : ℕ → List ℕ
unfolding digits replicate
format_tid n =
    let text = if n == 0 then b'0' ∷ [] else digits 10 n [] in
    replicate (5 - length text) b' ' ++ (text ++ b' ' ∷ [])

-- `t_cachedTid`, `t_tidString` up to its end, and `t_tidStringLength`.
pub record Locals : Type 0 where
  pub cached_tid : ℕ
  pub tid_string : List ℕ
  pub tid_string_length : ℕ

-- Those of a new thread.
abbrev pub new_locals : Locals
new_locals = record { cached_tid = 0; tid_string = []; tid_string_length = 6 }

-- `sizeof(t_tidString)`.
abbrev pub tid_string_size : ℕ
tid_string_size = 32

-- `CacheTid`, with what `gettid` returns.
unfoldable pub cache_tid : (gettid : ℕ) → Locals → Locals
unfolding take format_tid
cache_tid gettid t =
    if t.cached_tid == 0
    then record {
      cached_tid = gettid;
      tid_string = take (tid_string_size - 1) (format_tid gettid);
      tid_string_length = length (format_tid gettid);
    }
    else t

-- `Tid`.
unfoldable pub tid_of : (gettid : ℕ) → Locals → Locals × ℕ
unfolding cache_tid
tid_of gettid t =
    let t' = if t.cached_tid == 0 then cache_tid gettid t else t in (t', t'.cached_tid)

-- `IsMainThread`, with what `getpid` returns.
unfoldable pub is_main_thread : (getpid gettid : ℕ) → Locals → Locals × Bool
unfolding tid_of
is_main_thread getpid gettid t = let (t', id) = tid_of gettid t in (t', id == getpid)
