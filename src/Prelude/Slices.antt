-- ===== src/Prelude/Slices.antt =====
-- Pieces of lists.
use Prim.Native.Nat.{ℕ, zero, suc, ◌+◌, ◌-◌, ◌≤◌}
use mathlib.Core.Path.{◌≡◌, refl, sym, ap, ◌∙◌}
use mathlib.Core.List.{List, [], ◌∷◌, ◌++◌}
use native.Mathlib.Omega.{arith}
use unos_kernel.Prelude.Lists.{length, take, drop, replicate, get_or}

pub drop-append {ℓ} :
    {A : Type ℓ} (n : ℕ) (xs ys : List A) → n ≤ length xs → drop n (xs ++ ys) ≡ drop n xs ++ ys
drop-append zero xs ys h = refl
drop-append (suc n) [] ys h = absurd (omega arith)
drop-append (suc n) (x ∷ xs) ys h = drop-append n xs ys (omega arith)

pub drop-append_past {ℓ} :
    {A : Type ℓ} (n : ℕ) (xs ys : List A)
    → length xs ≤ n
    → drop n (xs ++ ys) ≡ drop (n - length xs) ys
drop-append_past zero [] ys h = refl
drop-append_past (suc n) [] ys h = ap (λ k. drop k ys) {x = suc n} {y = suc n - 0} (omega arith)
drop-append_past zero (x ∷ xs) ys h = absurd (omega arith)
drop-append_past (suc n) (x ∷ xs) ys h =
    drop-append_past n xs ys (omega arith) ∙ ap (λ k. drop k ys) (omega arith)

pub take-append {ℓ} :
    {A : Type ℓ} (n : ℕ) (xs ys : List A) → n ≤ length xs → take n (xs ++ ys) ≡ take n xs
take-append zero xs ys h = refl
take-append (suc n) [] ys h = absurd (omega arith)
take-append (suc n) (x ∷ xs) ys h = ap (λ t. x ∷ t) (take-append n xs ys (omega arith))

pub take-append_past {ℓ} :
    {A : Type ℓ} (n : ℕ) (xs ys : List A)
    → length xs ≤ n
    → take n (xs ++ ys) ≡ xs ++ take (n - length xs) ys
take-append_past zero [] ys h = refl
take-append_past (suc n) [] ys h = ap (λ k. take k ys) {x = suc n} {y = suc n - 0} (omega arith)
take-append_past zero (x ∷ xs) ys h = absurd (omega arith)
take-append_past (suc n) (x ∷ xs) ys h =
    ap (λ t. x ∷ t) (take-append_past n xs ys (omega arith))
    ∙ ap (λ k. x ∷ xs ++ take k ys) (omega arith)

pub take_all {ℓ} : {A : Type ℓ} (n : ℕ) (xs : List A) → length xs ≤ n → take n xs ≡ xs
take_all zero [] h = refl
take_all (suc n) [] h = refl
take_all zero (x ∷ xs) h = absurd (omega arith)
take_all (suc n) (x ∷ xs) h = ap (λ t. x ∷ t) (take_all n xs (omega arith))

pub length-drop {ℓ} : {A : Type ℓ} (n : ℕ) (xs : List A) → length (drop n xs) ≡ length xs - n
length-drop zero xs = omega arith
length-drop (suc n) [] = omega arith
length-drop (suc n) (x ∷ xs) = length-drop n xs ∙ omega arith

pub append_nil {ℓ} : {A : Type ℓ} (xs : List A) → xs ++ [] ≡ xs
append_nil [] = refl
append_nil (x ∷ xs) = ap (λ t. x ∷ t) (append_nil xs)

pub drop_all {ℓ} : {A : Type ℓ} (n : ℕ) (xs : List A) → length xs ≤ n → drop n xs ≡ []
drop_all zero [] h = refl
drop_all (suc n) [] h = refl
drop_all zero (x ∷ xs) h = absurd (omega arith)
drop_all (suc n) (x ∷ xs) h = drop_all n xs (omega arith)

pub length-take {ℓ} : {A : Type ℓ} (n : ℕ) (xs : List A) → length (take n xs) ≤ n
length-take zero xs = omega arith
length-take (suc n) [] = omega arith
length-take (suc n) (x ∷ xs) = omega (arith, length-take n xs)

pub take_nil {ℓ} : {A : Type ℓ} (n : ℕ) → take {A = A} n [] ≡ []
take_nil zero = refl
take_nil (suc n) = refl

pub drop-take {ℓ} :
    {A : Type ℓ} (o n : ℕ) (xs : List A) → drop o (take n xs) ≡ take (n - o) (drop o xs)
drop-take zero n xs = ap (λ k. take k xs) {x = n} {y = n - 0} (omega arith)
drop-take (suc o) zero xs = ap (λ k. take k (drop (suc o) xs)) {x = 0} {y = 0 - suc o} (omega arith)
drop-take (suc o) (suc n) [] = sym (take_nil (suc n - suc o))
drop-take (suc o) (suc n) (x ∷ xs) =
    drop-take o n xs ∙ ap (λ k. take k (drop o xs)) {x = n - o} {y = suc n - suc o} (omega arith)

pub take-take_le {ℓ} : {A : Type ℓ} (a b : ℕ) (xs : List A) → a ≤ b → take a (take b xs) ≡ take a xs
take-take_le zero b xs h = refl
take-take_le (suc a) zero xs h = absurd (omega arith)
take-take_le (suc a) (suc b) [] h = refl
take-take_le (suc a) (suc b) (x ∷ xs) h = ap (λ t. x ∷ t) (take-take_le a b xs (omega arith))

pub drop-drop {ℓ} : {A : Type ℓ} (m n : ℕ) (xs : List A) → drop m (drop n xs) ≡ drop (n + m) xs
drop-drop m zero xs = ap (λ k. drop k xs) {x = m} {y = 0 + m} (omega arith)
drop-drop m (suc n) [] = drop_all m [] (omega arith) ∙ sym (drop_all (suc n + m) [] (omega arith))
drop-drop m (suc n) (x ∷ xs) =
    drop-drop m n xs ∙ ap (λ k. drop k (x ∷ xs)) {x = suc (n + m)} {y = suc n + m} (omega arith)

pub replicate-append {ℓ} :
    {A : Type ℓ} (m n : ℕ) (a : A) → replicate (m + n) a ≡ replicate m a ++ replicate n a
replicate-append zero n a = ap (λ k. replicate k a) {x = 0 + n} {y = n} (omega arith)
replicate-append (suc m) n a =
    ap (λ k. replicate k a) {x = suc m + n} {y = suc (m + n)} (omega arith)
    ∙ ap (λ t. a ∷ t) (replicate-append m n a)

pub drop-replicate {ℓ} :
    {A : Type ℓ} (n m : ℕ) (a : A) → drop n (replicate m a) ≡ replicate (m - n) a
drop-replicate zero m a = ap (λ k. replicate k a) {x = m} {y = m - 0} (omega arith)
drop-replicate (suc n) zero a = ap (λ k. replicate k a) {x = 0} {y = 0 - suc n} (omega arith)
drop-replicate (suc n) (suc m) a =
    drop-replicate n m a ∙ ap (λ k. replicate k a) {x = m - n} {y = suc m - suc n} (omega arith)

pub get_or-drop : (i j : ℕ) (xs : List ℕ) → get_or (drop i xs) j 0 ≡ get_or xs (i + j) 0
get_or-drop zero j xs = ap (λ k. get_or xs k 0) {x = j} {y = 0 + j} (omega arith)
get_or-drop (suc i) j [] = refl
get_or-drop (suc i) j (x ∷ xs) =
    get_or-drop i j xs
    ∙ ap (λ k. get_or (x ∷ xs) k 0) {x = suc (i + j)} {y = suc i + j} (omega arith)
