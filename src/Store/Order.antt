-- ===== src/Store/Order.antt =====
-- The order of List.
use shortn.Prelude.{ℕ, ◌≡◌, inl, inr, true, false, List, [], ◌∷◌, zero, suc, arith, Bool-cases}
use shortn.Shortener.{Link}
use shortn.Store.{is_newer, place, newest_first, take, drop}

-- No row of the list is newer than this one.
abbrev pub NoneNewer : Link → List Link → Type 0
NoneNewer l [] = Unit
NoneNewer l (m ∷ ms) = (is_newer m l ≡ false) × NoneNewer l ms

-- No row is newer than one before it.
abbrev pub IsNewestFirst : List Link → Type 0
IsNewestFirst [] = Unit
IsNewestFirst (l ∷ ls) = NoneNewer l ls × IsNewestFirst ls

is_newer-later : (l m x : Link) → is_newer m l ≡ false → is_newer x m ≡ false → is_newer x l ≡ false
is_newer-later l m x p q = ground arith

NoneNewer-later :
    (l m : Link) (ms : List Link) → is_newer m l ≡ false → NoneNewer m ms → NoneNewer l ms
NoneNewer-later l m [] p h = tt
NoneNewer-later l m (x ∷ xs) p (first, h) =
    (is_newer-later l m x p first, NoneNewer-later l m xs p h)

is_newer-asym : (l m : Link) → is_newer m l ≡ true → is_newer l m ≡ false
is_newer-asym l m p = ground arith

NoneNewer-place :
    (m l : Link) (ms : List Link) → is_newer l m ≡ false → NoneNewer m ms → NoneNewer m (place l ms)
unfolding place
NoneNewer-place m l [] p h = (p, tt)
NoneNewer-place m l (x ∷ xs) p (first, h) = elim (Bool-cases (is_newer x l)) [
  | inl newer ↦ rw newer (first, NoneNewer-place m l xs p h)
  | inr older ↦ rw older (p, (first, h))
]

place-IsNewestFirst : (l : Link) (ms : List Link) → IsNewestFirst ms → IsNewestFirst (place l ms)
unfolding place
place-IsNewestFirst l [] h = (tt, tt)
place-IsNewestFirst l (x ∷ xs) (first, h) = elim (Bool-cases (is_newer x l)) [
  | inl newer ↦
      rw newer (NoneNewer-place x l xs (is_newer-asym l x newer) first, place-IsNewestFirst l xs h)
  | inr older ↦ rw older ((older, NoneNewer-later l x xs older first), (first, h))
]

pub newest_first-IsNewestFirst : (ls : List Link) → IsNewestFirst (newest_first ls)
unfolding newest_first
newest_first-IsNewestFirst [] = tt
newest_first-IsNewestFirst (l ∷ ls) =
    place-IsNewestFirst l (newest_first ls) (newest_first-IsNewestFirst ls)

pub drop-IsNewestFirst : (n : ℕ) (ls : List Link) → IsNewestFirst ls → IsNewestFirst (drop n ls)
drop-IsNewestFirst zero ls h = h
drop-IsNewestFirst (suc n) [] h = tt
drop-IsNewestFirst (suc n) (l ∷ ls) (first, h) = drop-IsNewestFirst n ls h

NoneNewer-take : (n : ℕ) (l : Link) (ls : List Link) → NoneNewer l ls → NoneNewer l (take n ls)
NoneNewer-take zero l ls h = tt
NoneNewer-take (suc n) l [] h = tt
NoneNewer-take (suc n) l (m ∷ ms) (first, h) = (first, NoneNewer-take n l ms h)

pub take-IsNewestFirst : (n : ℕ) (ls : List Link) → IsNewestFirst ls → IsNewestFirst (take n ls)
take-IsNewestFirst zero ls h = tt
take-IsNewestFirst (suc n) [] h = tt
take-IsNewestFirst (suc n) (l ∷ ls) (first, h) =
    (NoneNewer-take n l ls first, take-IsNewestFirst n ls h)
