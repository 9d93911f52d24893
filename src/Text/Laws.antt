-- ===== src/Text/Laws.antt =====
-- Splitting a text and putting it together again.
use zk_auth.Prelude.{
  ◌≡◌, ◌≢◌, refl, ap, ◌==◌, ==_ne, Bool, Bool-cases, inl, inr, select, arith, List, [], ◌∷◌, ◌++◌,
}
use zk_auth.Text.{Text, space, split, join}

abbrev pub NoSpace : Text → Type 0
NoSpace [] = Unit
NoSpace (c ∷ cs) = (c ≢ space) × NoSpace cs

split_word : (t : Text) → NoSpace t → split t ≡ (t, [])
unfolding split
split_word [] h = refl
split_word (c ∷ cs) (n, h) = rw (split_word cs h, ==_ne c space n) refl

pub split_words : (w t : Text) → NoSpace w → NoSpace t → split (w ++ space ∷ t) ≡ (w, t ∷ [])
unfolding split
split_words [] t hw ht = rw (split_word t ht) refl
split_words (c ∷ cs) t (n, hw) ht = rw (split_words cs t hw ht, ==_ne c space n) refl

abbrev pub AllNoSpace : List Text → Type 0
AllNoSpace [] = Unit
AllNoSpace (part ∷ parts) = NoSpace part × AllNoSpace parts

abbrev pub parts_of : Text × List Text → List Text
parts_of (part, parts) = part ∷ parts

-- The parts of a text have no space.
pub split-NoSpace : (t : Text) → AllNoSpace (parts_of (split t))
unfolding split
split-NoSpace [] = (tt, tt)
split-NoSpace (c ∷ cs) = elim (Bool-cases (c == space)) [
  | inl e ↦ rw e (tt, split-NoSpace cs)
  | inr e ↦ rw e (((λ h. ground (arith, h, e)), (split-NoSpace cs).0), (split-NoSpace cs).1)
]

split_part : (w t : Text) → NoSpace w → split (w ++ space ∷ t) ≡ (w, parts_of (split t))
unfolding split
split_part [] t h = refl
split_part (c ∷ cs) t (n, h) = rw (split_part cs t h, ==_ne c space n) refl

-- Texts without spaces come back from their joined text.
pub split-join :
    (part : Text) (parts : List Text)
    → AllNoSpace (part ∷ parts)
    → parts_of (split (join (part ∷ parts))) ≡ part ∷ parts
unfolding join
split-join part [] (h, hs) = rw (split_word part h) refl
split-join part (next ∷ parts) (h, hs) =
    rw (split_part part (join (next ∷ parts)) h)
      (ap (λ (q : List Text). part ∷ q) (split-join next parts hs))

pub select-AllNoSpace :
    (keep : Text → Bool) (parts : List Text) → AllNoSpace parts → AllNoSpace (select keep parts)
select-AllNoSpace keep [] h = tt
select-AllNoSpace keep (part ∷ parts) (h, hs) = elim (Bool-cases (keep part)) [
  | inl e ↦ rw e (h, select-AllNoSpace keep parts hs)
  | inr e ↦ rw e (select-AllNoSpace keep parts hs)
]
