-- ===== src/Pg/Token/Pieces.antt =====
-- What the statements are: the text can be put together from them, and each is one statement.
use mathlib.Core.List.{append_assoc, append-nil}
use slice_db.Prelude.{
  ℕ, ◌+◌, ◌*◌, ◌≤◌, ◌≡◌, refl, sym, ◌∙◌, ◌≢◌, ◌⊎◌, inl, inr, Str, List, [], ◌∷◌, ◌++◌, Bool, true,
  false, not, ◌&&◌, length, arith, Bool-cases,
}
use slice_db.Pg.Token.{
  State, comment, comment_start, identifier, other, string, string_quote, done, parse_statements,
}
use slice_db.Pg.Token.Grammar.{next, cuts, ends, finish, split}
use slice_db.Pg.Token.Loop.{parse_statements-eq-split}

-- The statements, each with the semicolon that ended it.
unfoldable pub rejoin : List Str → Str
rejoin [] = []
rejoin (p ∷ ps) = p ++ (b';' ∷ rejoin ps)

rejoin-append : (ps qs : List Str) → rejoin (ps ++ qs) ≡ rejoin ps ++ rejoin qs
unfolding rejoin
rejoin-append [] qs = refl
rejoin-append (p ∷ ps) qs = simp (rejoin-append ps qs, append_assoc)

-- `t` is `s`, with or without a last semicolon.
abbrev pub IsEnded : Str → Str → Type 0
IsEnded t s = (t ≡ s) ⊎ (t ≡ s ++ (b';' ∷ []))

cuts-eq : (st : State) (c : ℕ) → cuts st c ≡ true → c ≡ b';'
unfolding cuts
cuts-eq comment_start c h = ground arith
cuts-eq other c h = ground arith
cuts-eq string_quote c h = ground arith
cuts-eq comment c h = cc
cuts-eq identifier c h = cc
cuts-eq string c h = cc

finish-rejoin :
    (st : State) (cur : Str) (out res : List Str)
    → finish st cur out ≡ done res
    → IsEnded (rejoin res) (rejoin out ++ cur)
unfolding finish rejoin
finish-rejoin comment cur out res h = cc
finish-rejoin identifier cur out res h = cc
finish-rejoin string cur out res h = cc
finish-rejoin _ [] out res h = ground (arith, append-nil out, append-nil (rejoin out))
finish-rejoin _ (c ∷ cur) out res h =
    inr (cc (rejoin-append out ((c ∷ cur) ∷ []), append_assoc (rejoin out) (c ∷ cur) (b';' ∷ [])))

split-rejoin :
    (text : Str) (st : State) (cur : Str) (out res : List Str)
    → split st cur out text ≡ done res
    → IsEnded (rejoin res) (rejoin out ++ (cur ++ text))
unfolding split rejoin
split-rejoin [] st cur out res h = rw (append-nil cur) (finish-rejoin st cur out res h)
split-rejoin (c ∷ text) st cur out res h = elim (Bool-cases (cuts st c)) [
  | inl cut ↦
      let e = split-rejoin text other [] (out ++ cur ∷ []) res (rw (cut, split) at h) in
      simp (cuts-eq st c cut, append_assoc) (simp (rejoin-append out (cur ∷ []), append_assoc) at e)
  | inr keep ↦ simp append_assoc (
      simp append_assoc at
        (split-rejoin text (next st c) (cur ++ c ∷ []) out res (rw (keep, split) at h)))
]

-- Whenever the text is split, its statements joined by semicolons are the text again, except that
-- one semicolon may be missing at its end: no character is lost, added or moved.
pub rejoin-parse_statements :
    (text : Str) (fuel : ℕ) (pieces : List Str)
    → ends other text ≢ comment
    → 2 * length text + 2 ≤ fuel
    → parse_statements text fuel ≡ done pieces
    → IsEnded (rejoin pieces) text
unfolding rejoin
rejoin-parse_statements text fuel pieces e h p =
    split-rejoin text other [] [] pieces (sym (parse_statements-eq-split text fuel e h) ∙ p)

-- No semicolon of `s` ends a statement, read from `st`.
uncut : State → Str → Bool
uncut st [] = true
uncut st (c ∷ cs) = not (cuts st c) && uncut (next st c) cs

-- The states outside quotes and comments.
closes : State → Bool
closes comment = false
closes identifier = false
closes string = false
closes _ = true

abbrev IsWhole : Str → Type 0
IsWhole p = (uncut other p ≡ true) × (closes (ends other p) ≡ true)
