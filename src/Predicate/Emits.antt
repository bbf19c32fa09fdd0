-- ===== src/Predicate/Emits.antt =====
-- What a successful formatting step promises, and the rules to combine steps. A step from one state
-- of the builder to another emits a syntax tree: its text is the step's text, its placeholders are
-- numbered as the step's arguments, and its meaning does not change when arguments follow.
use fq_connector_go.Common.{
  ℕ, ◌+◌, List, [], ◌++◌, append_assoc, append-nil, ◌≡◌, refl, sym, ap, ◌∙◌, length-append,
  count_from, count_from-add,
}
use fq_connector_go.Errors.{Result, ok, err}
use fq_connector_go.Predicate.Formatter.{QueryArgs, count}
use fq_connector_go.Predicate.Builder.{Builder, Build, return, continue, ◌>>=◌}

-- A kind of syntax tree.
pub record Language : Type 1 where
  pub Tree : Type 0
  pub Text : Type 0
  pub Meaning : Type 0
  pub text_of : Tree → Text
  pub holes_in : Tree → List ℕ
  pub meaning_under : QueryArgs → Tree → Meaning

pub record Emits (L : Language) (st st' : Builder) (text : L.Text) (m : L.Meaning) : Type 0 where
  pub tree : L.Tree
  pub has_text : text ≡ L.text_of tree
  pub added : QueryArgs
  pub grows : st'.args ≡ st.args ++ added
  pub numbered : L.holes_in tree ≡ count_from (count st.args) (count added)
  pub means : (later : QueryArgs) → L.meaning_under (st'.args ++ later) tree ≡ m

continue-eq-ok :
    {A B : Type 0} (r : Result A × Builder) (f : A → Build B) {b : B} {st' : Builder}
    → continue r.0 f r.1 ≡ (ok b, st')
    → (a : A) × (s : Builder) × (r ≡ (ok a, s)) × (f a s ≡ (ok b, st'))
continue-eq-ok (ok a, s) f h = (a, s, refl, h)
continue-eq-ok (err e, s) f h = cc

-- Inversion of a successful chain.
pub >>=-eq-ok :
    {A B : Type 0} (m : Build A) (f : A → Build B) (st : Builder) {b : B} {st' : Builder}
    → (m >>= f) st ≡ (ok b, st')
    → (a : A) × (s : Builder) × (m st ≡ (ok a, s)) × (f a s ≡ (ok b, st'))
>>=-eq-ok {A} {B} m f st {b} {st'} h = continue-eq-ok (m st) f h

-- The same step, whatever names its outcome has.
pub Emits-outcome :
    (L : Language) {st s st' : Builder} {t text : L.Text} {m : L.Meaning}
    → Emits L st s t m
    → ◌≡◌ {A = Result L.Text × Builder} (ok t, s) (ok text, st')
    → Emits L st st' text m
Emits-outcome L {s = s} {st' = st'} {t = t} {text = text} x h =
    let same_text : text ≡ t = cc in let same_state : st' ≡ s = cc in rw (same_text, same_state) x

-- A tree with no placeholder.
pub Emits-closed :
    (L : Language) (tree : L.Tree) (st : Builder) {m : L.Meaning}
    → L.holes_in tree ≡ []
    → ((args : QueryArgs) → L.meaning_under args tree ≡ m)
    → Emits L st st (L.text_of tree) m
Emits-closed L tree st no_holes same = record {
  tree = tree;
  has_text = refl;
  added = [];
  grows = sym (append-nil st.args);
  numbered = no_holes;
  means = λ later. same (st.args ++ later);
}

-- A tree around one tree.
pub Emits-map :
    (A B : Language) (node : A.Tree → B.Tree) (f : A.Text → B.Text) (g : A.Meaning → B.Meaning)
    → ((t : A.Tree) → B.text_of (node t) ≡ f (A.text_of t))
    → ((t : A.Tree) → B.holes_in (node t) ≡ A.holes_in t)
    → ((args : QueryArgs) (t : A.Tree) → B.meaning_under args (node t) ≡ g (A.meaning_under args t))
    → {st st' : Builder} {text : A.Text} {m : A.Meaning} → Emits A st st' text m
    → Emits B st st' (f text) (g m)
Emits-map A B node f g text_eq holes_eq meaning_eq x = record {
  tree = node x.tree;
  has_text = ap f x.has_text ∙ sym (text_eq x.tree);
  added = x.added;
  grows = x.grows;
  numbered = holes_eq x.tree ∙ x.numbered;
  means = λ later. meaning_eq _ x.tree ∙ ap g (x.means later);
}

-- A tree around two trees, one after the other.
pub Emits-pair :
    (A B C : Language) (node : A.Tree → B.Tree → C.Tree) (f : A.Text → B.Text → C.Text)
    (g : A.Meaning → B.Meaning → C.Meaning)
    → ((t : A.Tree) (u : B.Tree) → C.text_of (node t u) ≡ f (A.text_of t) (B.text_of u))
    → ((t : A.Tree) (u : B.Tree) → C.holes_in (node t u) ≡ A.holes_in t ++ B.holes_in u)
    → ((args : QueryArgs) (t : A.Tree) (u : B.Tree)
        → C.meaning_under args (node t u) ≡ g (A.meaning_under args t) (B.meaning_under args u))
    → {st s st' : Builder} {text : A.Text} {text' : B.Text} {m : A.Meaning} {m' : B.Meaning}
    → Emits A st s text m
    → Emits B s st' text' m'
    → Emits C st st' (f text text') (g m m')
Emits-pair A B C node f g text_eq holes_eq meaning_eq {st} {s} {st'} {m} x y = record {
  tree = node x.tree y.tree;
  has_text = rw (x.has_text, y.has_text) (sym (text_eq x.tree y.tree));
  added = x.added ++ y.added;
  grows = y.grows ∙ ap (λ l. l ++ y.added) x.grows ∙ append_assoc st.args x.added y.added;
  numbered =
      rw (holes_eq x.tree y.tree, x.numbered, y.numbered, from, length-append x.added y.added)
        (count_from-add (count st.args) (count x.added) (count y.added));
  means = λ later.
      meaning_eq (st'.args ++ later) x.tree y.tree
      ∙ ap (λ a. g a (B.meaning_under (st'.args ++ later) y.tree)) (earlier later)
      ∙ ap (g m) (y.means later);
}
  where
    from : count s.args ≡ count st.args + count x.added
    from = ap (λ l. count l) x.grows ∙ length-append st.args x.added

    earlier : (later : QueryArgs) → A.meaning_under (st'.args ++ later) x.tree ≡ m
    earlier later = rw (y.grows, append_assoc s.args y.added later) (x.means (y.added ++ later))

-- What a formatting action promises in every state.
abbrev pub Faithfully : (L : Language) → Build L.Text → L.Meaning → Type 0
Faithfully L action m =
    (st : Builder) (text : L.Text) (st' : Builder)
    → action st ≡ (ok text, st')
    → Emits L st st' text m

pub Faithfully-map :
    (A B : Language) (node : A.Tree → B.Tree) (f : A.Text → B.Text) (g : A.Meaning → B.Meaning)
    → ((t : A.Tree) → B.text_of (node t) ≡ f (A.text_of t))
    → ((t : A.Tree) → B.holes_in (node t) ≡ A.holes_in t)
    → ((args : QueryArgs) (t : A.Tree) → B.meaning_under args (node t) ≡ g (A.meaning_under args t))
    → {x : Build A.Text} {m : A.Meaning} → Faithfully A x m
    → Faithfully B (x >>= λ a. return (f a)) (g m)
Faithfully-map A B node f g text_eq holes_eq meaning_eq {x} inner st text st' h =
    let (a, s, hx, last) = >>=-eq-ok x (λ a. return (f a)) st h in
    Emits-outcome B (Emits-map A B node f g text_eq holes_eq meaning_eq (inner st a s hx)) last

pub Faithfully-pair :
    (A B C : Language) (node : A.Tree → B.Tree → C.Tree) (f : A.Text → B.Text → C.Text)
    (g : A.Meaning → B.Meaning → C.Meaning)
    → ((t : A.Tree) (u : B.Tree) → C.text_of (node t u) ≡ f (A.text_of t) (B.text_of u))
    → ((t : A.Tree) (u : B.Tree) → C.holes_in (node t u) ≡ A.holes_in t ++ B.holes_in u)
    → ((args : QueryArgs) (t : A.Tree) (u : B.Tree)
        → C.meaning_under args (node t u) ≡ g (A.meaning_under args t) (B.meaning_under args u))
    → {x : Build A.Text} {y : Build B.Text} {m : A.Meaning} {n : B.Meaning} → Faithfully A x m
    → Faithfully B y n
    → Faithfully C (x >>= λ a. (y >>= λ b. return (f a b))) (g m n)
Faithfully-pair A B C node f g text_eq holes_eq meaning_eq {x} {y} left right st text st' h =
    let (a, s, hx, rest) = >>=-eq-ok x (λ a. (y >>= λ b. return (f a b))) st h in
    let (b, s', hy, last) = >>=-eq-ok y (λ b. return (f a b)) s rest in
    Emits-outcome C
      (Emits-pair A B C node f g text_eq holes_eq meaning_eq (left st a s hx) (right s b s' hy))
      last
