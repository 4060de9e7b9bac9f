-- ===== src/Apps/Cipher.antt =====
-- The text of a request of crazy_write.
use dreamboat_rpc.Prelude.{
  ℕ, ◌+◌, ◌-◌, ◌%◌, ◌≤◌, ◌≡◌, refl, ap, ◌∙◌, List, [], ◌∷◌, arith, true, false, inl, inr,
  Bool-cases, ◌&&◌, leb,
}
use dreamboat_rpc.Apps.{shifted, coded}

shifted-letter : (i ch : ℕ) → 97 ≤ ch → ch ≤ 122 → shifted i ch ≡ 97 + (ch + i - 97) % 26
unfolding shifted
shifted-letter i ch low high =
    let letter : (leb b'a' ch && leb ch b'z') ≡ true = ground arith in rw letter

shifted-other : (i ch : ℕ) → (leb b'a' ch && leb ch b'z') ≡ false → shifted i ch ≡ ch
unfolding shifted
shifted-other i ch other = rw other

around :
    (i ch : ℕ) → 97 ≤ ch → ch ≤ 122 → 97 + (97 + (ch + i - 97) % 26 + (26 - i % 26) - 97) % 26 ≡ ch
around i ch low high = omega arith

shifted-back : (i ch : ℕ) → shifted (26 - i % 26) (shifted i ch) ≡ ch
shifted-back i ch = elim (Bool-cases (leb b'a' ch && leb ch b'z')) [
  | inl letter ↦
      let low : 97 ≤ ch = ground arith in
      let high : ch ≤ 122 = ground arith in
      ap (shifted (26 - i % 26)) (shifted-letter i ch low high)
      ∙ shifted-letter (26 - i % 26) (97 + (ch + i - 97) % 26) (omega arith) (omega arith)
      ∙ around i ch low high
  | inr other ↦
      ap (shifted (26 - i % 26)) (shifted-other i ch other) ∙ shifted-other (26 - i % 26) ch other
]

-- Twenty-six steps in all.
pub coded-back : (i : ℕ) (s : List ℕ) → coded (26 - i % 26) (coded i s) ≡ s
unfolding coded
coded-back i [] = refl
coded-back i (ch ∷ s) = λ k. shifted-back i ch k ∷ coded-back i s k
