-- ===== src/Memory/Strings.antt =====
-- Laws of the buffers of assignment4.c.
use grnvs.Prelude.{
  ℕ, zero, suc, ◌+◌, ◌≡◌, ◌≢◌, ◌<◌, ◌≤◌, ◌↔◌, refl, true, false, none, some, List, [], ◌∷◌, ◌++◌,
  arith, ◌==◌, ==_ne, leb, length, length-append, drop, take, length-replicate, ap, ap₂, ◌∙◌, sym,
  Bool-cases, inl, inr,
}
use grnvs.Memory.{Bytes, zeros, c_string, string_at, write_at, index_of, str_equal}

-- No byte of the string is `c`.
abbrev pub Lacks : ℕ → Bytes → Type 0
Lacks c [] = Unit {0}
Lacks c (b ∷ bs) = (b ≢ c) × Lacks c bs

pub Lacks-append : (c : ℕ) (s t : Bytes) → Lacks c s → Lacks c t → Lacks c (s ++ t)
Lacks-append c [] t h k = k
Lacks-append c (b ∷ s) t (ne, h) k = (ne, Lacks-append c s t h k)

c_string-append : (s rest : Bytes) → Lacks 0 s → c_string (s ++ (0 ∷ rest)) ≡ some s
unfolding c_string
c_string-append [] rest h = refl
c_string-append (b ∷ s) rest (ne, h) = rw (==_ne b 0 ne, c_string-append s rest h)

pub index_of-append :
    (c : ℕ) (s rest : Bytes) → Lacks c s → index_of c (s ++ (c ∷ rest)) ≡ some (length s)
unfolding index_of
index_of-append c [] rest h = ground arith
index_of-append c (b ∷ s) rest (ne, h) = rw (==_ne b c ne, index_of-append c s rest h)

module _ {ℓ} {A : Type ℓ} where
  pub drop-append : (xs ys : List A) → drop (length xs) (xs ++ ys) ≡ ys
  drop-append [] ys = refl
  drop-append (x ∷ xs) ys = drop-append xs ys

  pub take-append : (xs ys : List A) → take (length xs) (xs ++ ys) ≡ xs
  take-append [] ys = refl
  take-append (x ∷ xs) ys = ap (λ zs. x ∷ zs) (take-append xs ys)

  pub drop-drop : (n m : ℕ) (xs : List A) → drop n (drop m xs) ≡ drop (m + n) xs
  drop-drop n zero xs = let e : zero + n ≡ n = omega arith in rw e
  drop-drop zero (suc m) [] = let e : suc m + zero ≡ suc m = omega arith in rw e
  drop-drop (suc n) (suc m) [] = let e : suc m + suc n ≡ suc (m + suc n) = omega arith in rw e
  drop-drop n (suc m) (x ∷ xs) =
      let e : suc m + n ≡ suc (m + n) = omega arith in rw e (drop-drop n m xs)

pub str_equal_iff : (s t : Bytes) → (str_equal s t ≡ true) ↔ (s ≡ t)
unfolding str_equal
str_equal_iff [] [] = (λ _. refl, λ _. refl)
str_equal_iff [] (c ∷ t) = (λ h. cc, λ h. cc)
str_equal_iff (b ∷ s) [] = (λ h. cc, λ h. cc)
str_equal_iff (b ∷ s) (c ∷ t) =
    let (there, back) = str_equal_iff s t in
    (
      λ h. ap₂ ◌∷◌ (ground arith) (there (ground arith)),
      λ h. let e : b ≡ c = cc in let f : s ≡ t = cc in ground (arith, back f),
    )

pub length-zeros : (n : ℕ) → length (zeros n) ≡ n
unfolding zeros
length-zeros n = length-replicate n 0

-- A write from the start of a buffer that has the room.
pub write_at-start :
    (bs buf : Bytes)
    → length bs ≤ length buf
    → write_at 0 bs buf ≡ some (bs ++ drop (length bs) buf)
unfolding write_at
write_at-start bs buf h =
    let e : 0 + length bs ≡ length bs = omega arith in
    let fits : leb (length bs) (length buf) ≡ true = ground arith in rw (e, fits)

-- A write that does not fit.
pub write_at-none : (i : ℕ) (bs buf : Bytes) → length buf < i + length bs → write_at i bs buf ≡ none
unfolding write_at
write_at-none i bs buf h =
    let over : leb (i + length bs) (length buf) ≡ false = ground arith in rw over

pub index_of-Lacks :
    (c k : ℕ) (s t : Bytes)
    → Lacks c s
    → index_of c t ≡ some k
    → index_of c (s ++ t) ≡ some (length s + k)
unfolding index_of
index_of-Lacks c k [] t h e = e ∙ ap some (omega arith)
index_of-Lacks c k (b ∷ s) t (ne, h) e =
    rw (==_ne b c ne, index_of-Lacks c k s t h e) (ap some (omega arith))

-- A byte that stands in the string is found.
pub index_of-mem : (c : ℕ) (s t : Bytes) → (k : ℕ) × (index_of c (s ++ (c ∷ t)) ≡ some k)
unfolding index_of
index_of-mem c [] t = (0, ground arith)
index_of-mem c (b ∷ s) t = elim (Bool-cases (b == c)) [
  | inl hit ↦ (0, rw hit)
  | inr miss ↦ let (k, e) = index_of-mem c s t in (suc k, rw (miss, e))
]

-- A string in the middle of a buffer.
pub string_at-middle :
    (i : ℕ) (pre s rest : Bytes)
    → length pre ≡ i
    → Lacks 0 s
    → string_at (pre ++ (s ++ (0 ∷ rest))) i ≡ some s
unfolding string_at
string_at-middle i pre s rest e h =
    rw (← e, drop-append pre (s ++ (0 ∷ rest))) (c_string-append s rest h)

-- The same by what lies behind the offset.
pub string_at-drop :
    (i : ℕ) (buf s rest : Bytes)
    → drop i buf ≡ s ++ (0 ∷ rest)
    → Lacks 0 s
    → string_at buf i ≡ some s
unfolding string_at
string_at-drop i buf s rest e h = rw e (c_string-append s rest h)

pub c_string-zeros : (n : ℕ) → 0 < n → string_at (zeros n) 0 ≡ some []
unfolding string_at c_string zeros
c_string-zeros zero h = absurd (omega arith)
c_string-zeros (suc n) h = refl

-- A write in the middle.
pub write_at-middle :
    (i : ℕ) (pre bs rest : Bytes)
    → length pre ≡ i
    → length bs ≤ length rest
    → write_at i bs (pre ++ rest) ≡ some (pre ++ (bs ++ drop (length bs) rest))
unfolding write_at
write_at-middle i pre bs rest e h =
    let fits : leb (i + length bs) (length (pre ++ rest)) ≡ true =
      ground (arith, length-append pre rest) in
    let front : take i (pre ++ rest) ≡ pre = rw (← e) (take-append pre rest) in
    let back : drop (i + length bs) (pre ++ rest) ≡ drop (length bs) rest =
      sym (drop-drop (length bs) i (pre ++ rest)) ∙ rw (← e, drop-append pre rest) in
    rw (fits, front, back)

-- A cut behind the end, and the rest of a cleared buffer.
pub take_all : (n : ℕ) (s : Bytes) → length s ≤ n → take n s ≡ s
take_all zero [] h = refl
take_all (suc n) [] h = refl
take_all zero (b ∷ s) h = absurd (omega arith)
take_all (suc n) (b ∷ s) h = ap (λ t. b ∷ t) (take_all n s (omega arith))

pub drop-zeros : (n m : ℕ) → m < n → (junk : Bytes) × (drop m (zeros n) ≡ 0 ∷ junk)
unfolding zeros
drop-zeros zero m h = absurd (omega arith)
drop-zeros (suc n) zero h = (zeros n, refl)
drop-zeros (suc n) (suc m) h = drop-zeros n m (omega arith)

pub drop_all-zeros : (n : ℕ) → drop n (zeros n) ≡ []
unfolding zeros
drop_all-zeros zero = refl
drop_all-zeros (suc n) = drop_all-zeros n

pub c_string-Lacks : (s : Bytes) → Lacks 0 s → c_string s ≡ none
unfolding c_string
c_string-Lacks [] h = refl
c_string-Lacks (b ∷ s) (ne, h) = rw (==_ne b 0 ne, c_string-Lacks s h)

pub Lacks-take : (c n : ℕ) (s : Bytes) → Lacks c s → Lacks c (take n s)
Lacks-take c zero s h = tt
Lacks-take c (suc n) [] h = tt
Lacks-take c (suc n) (b ∷ s) (ne, h) = (ne, Lacks-take c n s h)
