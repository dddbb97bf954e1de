-- ===== src/Utxo/Keys.antt =====
-- The keys "<txid>-<index>" of the UTXO maps.
use hybridblockchain.Common.{
  ℕ, ◌≡◌, ◌≢◌, refl, [], ◌∷◌, ◌++◌, Text, All, IsDigit, decimal, decimal-IsDigit, decimal-injective,
  int_text, pos, arith,
}
use hybridblockchain.Tx.{utxo_key}

abbrev NotDash : Text → Type 0
NotDash = All (λ c. c ≢ 45)

digits-NotDash : (cs : Text) → All IsDigit cs → NotDash cs
digits-NotDash [] h = tt
digits-NotDash (c ∷ cs) h = (omega arith, digits-NotDash cs h.1)

dash_not_within : (b d e : Text) → NotDash d → d ≢ b ++ 45 ∷ e
dash_not_within [] [] e n h = cc
dash_not_within (x ∷ b) [] e n h = cc
dash_not_within [] (c ∷ d) e n h = n.0 (ground arith)
dash_not_within (x ∷ b) (c ∷ d) e n h = dash_not_within b d e n.1 (ground arith)

-- A text is split at its last dash in one way.
split_last_dash :
    (a b d e : Text) → NotDash d → NotDash e → a ++ 45 ∷ d ≡ b ++ 45 ∷ e → (a ≡ b) × (d ≡ e)
split_last_dash [] [] d e nd ne h = (refl, ground arith)
split_last_dash [] (y ∷ b) d e nd ne h = absurd (dash_not_within b d e nd (ground arith))
split_last_dash (x ∷ a) [] d e nd ne h = absurd (dash_not_within a e d ne (ground arith))
split_last_dash (x ∷ a) (y ∷ b) d e nd ne h =
    let (p, q) = split_last_dash a b d e nd ne (ground arith) in (ground arith, q)

-- Two outputs, whose indices are not negative, have the same key only if they are the same output of the same
-- transaction ID.
pub utxo_key-injective :
    (a b : Text) (i j : ℕ) → utxo_key a (pos i) ≡ utxo_key b (pos j) → (a ≡ b) × (i ≡ j)
unfolding utxo_key int_text
utxo_key-injective a b i j h =
    let (p, q) =
      split_last_dash a b (decimal i) (decimal j) (digits-NotDash (decimal i) (decimal-IsDigit i))
        (digits-NotDash (decimal j) (decimal-IsDigit j)) h in
    (p, decimal-injective i j q)
