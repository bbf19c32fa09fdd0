-- ===== src/Predicate/Joins.antt =====
-- predicate_builder.go: the text that the loops over operands build, against the texts of the
-- operands with a separator between them.
use fq_connector_go.Common.{
  ◌≤◌, Bytes, codes, List, [], ◌∷◌, ◌++◌, append_assoc, ◌≡◌, refl, ap, ◌∙◌, arith,
}
use fq_connector_go.Errors.{ok}
use fq_connector_go.Predicate.Builder.{Builder}
use fq_connector_go.Predicate.Format.{
  Conjunction, conjunction_start, conjunction_add, conjunction_end, Disjunction, disjunction_start,
  disjunction_round, disjunction_end,
}
use fq_connector_go.Predicate.Meaning.{prefixed, bracketed}

-- The rounds of formatConjunction over operands that were formatted.
unfoldable pub conjunction_all : Conjunction → List Bytes → Conjunction
conjunction_all c [] = c
conjunction_all c (s ∷ ss) = conjunction_all (conjunction_add c s) ss

unfoldable pub disjunction_all : Disjunction → List Bytes → Disjunction
disjunction_all c [] = c
disjunction_all c (s ∷ ss) = disjunction_all (disjunction_round c s) ss

module _ (c : Conjunction) (s : Bytes) (h : 2 ≤ c.succeeded) where
  conjunction_add-text : (conjunction_add c s).text ≡ c.text ++ (codes " AND " ++ s)
  unfolding conjunction_add
  conjunction_add-text = ground arith

  conjunction_add-succeeded : 2 ≤ (conjunction_add c s).succeeded
  unfolding conjunction_add
  conjunction_add-succeeded = ground arith

conjunction_end-later :
    (c : Conjunction) (ss : List Bytes) (st : Builder)
    → 2 ≤ c.succeeded
    → conjunction_end (conjunction_all c ss) st
      ≡ (ok (c.text ++ (prefixed (codes " AND ") ss ++ codes ")")), st)
unfolding conjunction_end conjunction_all
conjunction_end-later c [] st h = ground arith
conjunction_end-later c (s ∷ ss) st h =
    conjunction_end-later (conjunction_add c s) ss st (conjunction_add-succeeded c s h)
    ∙ ap (λ t. (ok t, st)) (rw (conjunction_add-text c s h) (simp append_assoc))

-- With two operands or more the text is bracketed.
pub conjunction_end-all :
    (s t : Bytes) (ss : List Bytes) (st : Builder)
    → conjunction_end (conjunction_all conjunction_start (s ∷ t ∷ ss)) st
      ≡ (ok (bracketed (codes " AND ") (s ∷ t ∷ ss)), st)
unfolding conjunction_all conjunction_add
conjunction_end-all s t ss st =
    conjunction_end-later _ ss st (omega arith) ∙ ap (λ u. (ok u, st)) (simp append_assoc)

module _ (c : Disjunction) (s : Bytes) (h : 2 ≤ c.cnt) where
  disjunction_round-text : (disjunction_round c s).text ≡ c.text ++ (codes " OR " ++ s)
  unfolding disjunction_round
  disjunction_round-text = ground arith

  disjunction_round-cnt : 2 ≤ (disjunction_round c s).cnt
  unfolding disjunction_round
  disjunction_round-cnt = ground arith

disjunction_end-later :
    (c : Disjunction) (ss : List Bytes) (st : Builder)
    → 2 ≤ c.cnt
    → disjunction_end (disjunction_all c ss) st
      ≡ (ok (c.text ++ (prefixed (codes " OR ") ss ++ codes ")")), st)
unfolding disjunction_end disjunction_all
disjunction_end-later c [] st h = ground arith
disjunction_end-later c (s ∷ ss) st h =
    disjunction_end-later (disjunction_round c s) ss st (disjunction_round-cnt c s h)
    ∙ ap (λ t. (ok t, st)) (rw (disjunction_round-text c s h) (simp append_assoc))

-- With two operands or more the text is bracketed.
pub disjunction_end-all :
    (s t : Bytes) (ss : List Bytes) (st : Builder)
    → disjunction_end (disjunction_all disjunction_start (s ∷ t ∷ ss)) st
      ≡ (ok (bracketed (codes " OR ") (s ∷ t ∷ ss)), st)
unfolding disjunction_all disjunction_round
disjunction_end-all s t ss st =
    disjunction_end-later _ ss st (omega arith) ∙ ap (λ u. (ok u, st)) (simp append_assoc)

-- With one operand the text is the operand's.
pub conjunction_end-one :
    (s : Bytes) (st : Builder)
    → conjunction_end (conjunction_all conjunction_start (s ∷ [])) st ≡ (ok s, st)
unfolding conjunction_all conjunction_add conjunction_end
conjunction_end-one s st = refl

pub disjunction_end-one :
    (s : Bytes) (st : Builder)
    → disjunction_end (disjunction_all disjunction_start (s ∷ [])) st ≡ (ok s, st)
unfolding disjunction_all disjunction_round disjunction_end
disjunction_end-one s st = refl
