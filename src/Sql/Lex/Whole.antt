-- ===== src/Sql/Lex/Whole.antt =====
-- src/ir_gen/sql_parser.c, `sql_tokenize_from_text`: every text is tokenized to its end.
use compute_ql.Shared.{
  ℕ, zero, suc, ◌+◌, ◌≤◌, ◌<◌, ◌≡◌, refl, sym, ap, subst, true, false, [], ◌∷◌, Option, none, some,
  drop, length, arith, List, length-drop, drop-drop,
}
use compute_ql.Text.{Text}
use compute_ql.Sql.Lex.{
  Token, TokenizeResult, Step, space_run, lex_step, after_space, tokenize_loop, push_token,
  sql_tokenize_from_text,
}
use compute_ql.Sql.Lex.Runs.{space_run-le, space_run-stops}
use compute_ql.Sql.Lex.Ranges.{StandsFrom, StandInOrder, Advances, branch_step-Advances}

-- A result is there, with its tokens in order from `pos`.
abbrev Ends : Text → ℕ → Option TokenizeResult → Type 0
Ends text pos o = (r : TokenizeResult) × (o ≡ some r) × StandInOrder text pos r.tokens

order_earlier :
    (text : Text) (pos later : ℕ) (ts : List Token)
    → pos ≤ later
    → StandInOrder text later ts
    → StandInOrder text pos ts
order_earlier text pos later [] h o = tt
order_earlier text pos later (t ∷ ts) h ((a, b, c, d), o) = ((omega arith, b, c, d), o)

push_token-Ends :
    (text : Text) (pos : ℕ) (t : Token) (o : Option TokenizeResult)
    → StandsFrom text pos t
    → Ends text t.range_max o
    → Ends text pos (push_token t o)
push_token-Ends text pos t none s (r, e, o) = cc
push_token-Ends text pos t (some q) s (r, e, o) = (
  record q { tokens = t ∷ q.tokens },
  refl,
  (s, subst (λ x. StandInOrder text t.range_max x.tokens) (sym (ap (unsome q) e)) o),
)
  where
    unsome : TokenizeResult → Option TokenizeResult → TokenizeResult
    unsome d none = d
    unsome d (some x) = x

after_space-le : (text : Text) (pos : ℕ) → pos ≤ length text → after_space text pos ≤ length text
after_space-le text pos h = omega (arith, space_run-le (drop pos text), length-drop pos text)

-- One round, before a loop `k` that ends from any later position.
step-Ends :
    (text : Text) (pos : ℕ) (step : Step) (k : ℕ → Option TokenizeResult)
    → Advances text (after_space text pos) step
    → ((next : ℕ) → pos < next → next ≤ length text → Ends text next (k next))
    → Ends text pos (elim step [
      | Step.finished ↦ some (record { tokens = []; unterminated = false })
      | Step.failed ↦ some (record { tokens = []; unterminated = true })
      | Step.emit t next ↦ push_token t (k next)
      | Step.skip next ↦ k next
    ])
step-Ends text pos Step.finished k a h = (record { tokens = []; unterminated = false }, refl, tt)
step-Ends text pos Step.failed k a h = (record { tokens = []; unterminated = true }, refl, tt)
step-Ends text pos (Step.emit t next) k ((p, q, r, v), e) h =
    push_token-Ends text pos t (k next) (omega arith, q, r, v)
      (rw e (h next (omega arith) (omega arith)))
step-Ends text pos (Step.skip next) k (p, q) h =
    let (r, e, o) = h next (omega arith) q in
    (r, e, order_earlier text pos next r.tokens (omega arith) o)

module _ (past : ℕ → ℕ) where
  lex_step-Advances :
      (text : Text) (pos : ℕ)
      → pos ≤ length text
      → Advances text (after_space text pos) (lex_step past text pos)
  unfolding lex_step
  lex_step-Advances text pos h =
      branch_step-Advances past text (after_space text pos) (drop (after_space text pos) text) refl
        (rw (drop-drop pos (space_run (drop pos text)) text) (space_run-stops (drop pos text)))
        (omega (arith, length-drop (after_space text pos) text, after_space-le text pos h))

  loop-Ends :
      (fuel : ℕ) (text : Text) (pos : ℕ)
      → pos ≤ length text
      → length text < fuel + pos
      → Ends text pos (tokenize_loop past fuel text pos)
  unfolding tokenize_loop
  loop-Ends zero text pos h f = absurd (omega arith)
  loop-Ends (suc fuel) text pos h f =
      step-Ends text pos (lex_step past text pos) (tokenize_loop past fuel text)
        (lex_step-Advances text pos h) (λ next p q. loop-Ends fuel text next q (omega arith))

  -- Every text is tokenized with a result: its tokens stand in the text in order and apart, each has
  -- a byte at least, and each but a string has the text of its range as its value; a string has the
  -- text between its quotes with each doubled quote read as one.
  pub tokenize-StandInOrder :
      (text : Text)
      → (r : TokenizeResult) × (sql_tokenize_from_text past text ≡ some r)
        × StandInOrder text 0 r.tokens
  unfolding sql_tokenize_from_text
  tokenize-StandInOrder text = loop-Ends (suc (length text)) text 0 (omega arith) (omega arith)
