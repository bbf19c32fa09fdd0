-- ===== src/Predicate/Operands.antt =====
-- predicate_builder.go: operands joined by AND or OR. One operand stands for itself, and two or
-- more are bracketed with the operator between them; either way the result means what it should.
use fq_connector_go.Common.{Bytes, List, [], ◌∷◌, ◌++◌, append-nil, ◌≡◌, refl, sym, ap, ◌∙◌}
use fq_connector_go.Errors.{ok}
use fq_connector_go.Predicate.Formatter.{QueryArgs, SqlFormatter}
use fq_connector_go.Predicate.Builder.{Builder, Build}
use fq_connector_go.Predicate.Meaning.{
  bound_truth, Truth, Database, SqlCondition, SqlConditions, none_of, more, holes, holes_of,
  condition_text, condition_texts, sql_truth, sql_truths,
}
use fq_connector_go.Predicate.Emits.{Language, Emits, Emits-outcome}

module _ {Split : Type 0} (formatter : SqlFormatter Split) (d : Database) where
  abbrev pub conditions : Language
  conditions = record {
    Tree = SqlCondition;
    Text = Bytes;
    Meaning = Truth;
    text_of = condition_text formatter;
    holes_in = holes;
    meaning_under = sql_truth d;
  }

  abbrev pub condition_lists : Language
  condition_lists = record {
    Tree = SqlConditions;
    Text = List Bytes;
    Meaning = List Truth;
    text_of = condition_texts formatter;
    holes_in = holes_of;
    meaning_under = sql_truths d;
  }

-- What AND and OR have in common: how the texts of the operands are finished, and how the truth
-- values of the operands are folded.
pub record Joining {Split : Type 0} (formatter : SqlFormatter Split) (d : Database) : Type 0 where
  pub node : SqlCondition → SqlConditions → SqlCondition
  pub fold : List Truth → Truth
  pub finish : List Bytes → Build Bytes
  pub finish-nil : (st st' : Builder) (text : Bytes) → finish [] st ≡ (ok text, st') → ⊥
  pub finish-one : (s : Bytes) (st : Builder) → finish (s ∷ []) st ≡ (ok s, st)
  pub finish-more :
      (c c' : SqlCondition) (cs : SqlConditions) (st : Builder)
      → finish (condition_texts formatter (more c (more c' cs))) st
        ≡ (ok (condition_text formatter (node c (more c' cs))), st)
  pub fold-one : (t : Truth) → fold (t ∷ []) ≡ t
  pub holes-node :
      (c : SqlCondition) (cs : SqlConditions) → holes (node c cs) ≡ holes_of (more c cs)
  pub truth-node :
      (args : QueryArgs) (c : SqlCondition) (cs : SqlConditions)
      → sql_truth d args (node c cs) ≡ fold (sql_truths d args (more c cs))

module _ {Split : Type 0} {formatter : SqlFormatter Split} {d : Database}
    (j : Joining formatter d) where
  joined-cases :
      (tree : SqlConditions) {st s st' : Builder} {ss : List Bytes} {text : Bytes} {ms : List Truth}
      → (x : Emits (condition_lists formatter d) st s ss ms) → x.tree ≡ tree
      → j.finish ss s ≡ (ok text, st')
      → Emits (conditions formatter d) st st' text (j.fold ms)
  unfolding condition_text holes bound_truth
  joined-cases none_of {s = s} {st' = st'} {text = text} x same h =
      absurd (j.finish-nil s st' text (rw (x.has_text ∙ ap (condition_texts formatter) same) at h))
  joined-cases (more c none_of) {s = s} x same h =
      Emits-outcome (conditions formatter d)
        (record {
          tree = c;
          has_text = refl;
          added = x.added;
          grows = x.grows;
          numbered = sym (append-nil (holes c)) ∙ ap holes_of (sym same) ∙ x.numbered;
          means = λ later.
              sym (j.fold-one (sql_truth d (s.args ++ later) c))
              ∙ ap j.fold (ap (sql_truths d (s.args ++ later)) (sym same) ∙ x.means later);
        })
        (sym (j.finish-one (condition_text formatter c) s)
          ∙ (rw (x.has_text ∙ ap (condition_texts formatter) same) at h))
  joined-cases (more c (more c' cs)) {s = s} x same h =
      Emits-outcome (conditions formatter d)
        (record {
          tree = j.node c (more c' cs);
          has_text = refl;
          added = x.added;
          grows = x.grows;
          numbered = j.holes-node c (more c' cs) ∙ ap holes_of (sym same) ∙ x.numbered;
          means = λ later.
              j.truth-node (s.args ++ later) c (more c' cs)
              ∙ ap j.fold (ap (sql_truths d (s.args ++ later)) (sym same) ∙ x.means later);
        })
        (sym (j.finish-more c c' cs s)
          ∙ (rw (x.has_text ∙ ap (condition_texts formatter) same) at h))

  -- Finishing the texts of operands that were emitted emits the joined condition.
  pub joined-Emits :
      {st s st' : Builder} {ss : List Bytes} {text : Bytes} {ms : List Truth}
      → Emits (condition_lists formatter d) st s ss ms
      → j.finish ss s ≡ (ok text, st')
      → Emits (conditions formatter d) st st' text (j.fold ms)
  joined-Emits x h = joined-cases x.tree x refl h
