-- ===== src/Logger/Lines.antt =====
-- What log_dev and log_err write.
use dreamboat_rpc.Prelude.{
  ℕ, ◌+◌, ◌-◌, ◌≤◌, ◌≡◌, ◌≢◌, refl, ap, sym, ◌∙◌, List, [], ◌∷◌, ◌++◌, arith, length, length-append,
  take-past,
}
use mathlib.Core.List.{append_assoc}
use dreamboat_rpc.Run.{ok, faults}
use dreamboat_rpc.Format.{Arg, text, convert, format, snprintf}
use dreamboat_rpc.Format.Plain.{
  IsPlain, IsPlain-append, format-plain, format-prefix, format-percent,
}
use dreamboat_rpc.Logger.{
  opened, log_internal, log_with, log_dev, log_err, bracketed, debug, error, max_line,
}

debug-IsPlain : IsPlain debug
debug-IsPlain = ground arith

error-IsPlain : IsPlain error
error-IsPlain = ground arith

module _ (prefix timestamp f : List ℕ) (args : List Arg) (content out : List ℕ)
    (plain : IsPlain prefix) (seven : length prefix ≡ 7) (formatted : format f args ≡ ok out)
    (short : length out ≤ 10232) where
  pub log_with-plain :
      IsPlain out
      → log_with prefix timestamp f args (opened content)
        ≡ ok (opened (content ++ bracketed timestamp ++ (prefix ++ out)))
  unfolding log_with log_internal snprintf
  log_with-plain v =
      let whole = take-past (max_line - 1) out (omega arith) in
      let size = length-append prefix out in
      let line = take-past (max_line - 1) (prefix ++ out) (omega (arith, size, seven)) in
      rw (
        formatted,
        whole,
        format-plain (prefix ++ out) [] (IsPlain-append prefix out plain v),
        line,
      )

  -- A percent sign in the text that is to be written.
  pub log_with-percent :
      (s : List ℕ) (c : ℕ) (rest : List ℕ)
      → out ≡ s ++ b'%' ∷ c ∷ rest
      → IsPlain s
      → c ≢ b'%'
      → log_with prefix timestamp f args (opened content) ≡ faults
  unfolding log_with log_internal snprintf
  log_with-percent s c rest e v ne =
      let whole = take-past (max_line - 1) out (omega arith) in
      let again : format (prefix ++ out) [] ≡ faults =
        ap (λ l. format (prefix ++ l) []) e
        ∙ ap (λ l. format l []) (sym (append_assoc prefix s _))
        ∙ format-percent (prefix ++ s) c rest (IsPlain-append prefix s plain v) ne in
      rw (formatted, whole, again)

-- The text that "%s" in the middle of plain text makes.
format-one_text :
    (before name after : List ℕ)
    → IsPlain before
    → IsPlain after
    → format (before ++ b'%' ∷ b's' ∷ after) (text name ∷ []) ≡ ok (before ++ (name ++ after))
unfolding format convert
format-one_text before name after v w =
    let plain = format-plain after [] w in
    format-prefix before (b'%' ∷ b's' ∷ after) (text name ∷ []) v ∙ rw plain

-- A line of the log.
pub log-writes :
    (timestamp f : List ℕ) (args : List Arg) (content out : List ℕ)
    → format f args ≡ ok out
    → length out ≤ 10232
    → IsPlain out
    → (log_dev timestamp f args (opened content)
        ≡ ok (opened (content ++ bracketed timestamp ++ (debug ++ out))))
      × (log_err timestamp f args (opened content)
          ≡ ok (opened (content ++ bracketed timestamp ++ (error ++ out))))
unfolding log_dev log_err
log-writes timestamp f args content out e short v = (
  log_with-plain debug timestamp f args content out debug-IsPlain refl e short v,
  log_with-plain error timestamp f args content out error-IsPlain refl e short v,
)

-- With the log open, log_dev of a format with one "%s" in plain text, and an argument in which a
-- percent sign stands before any other byte, all of it short enough for the buffer, is undefined
-- behaviour.
pub log_dev-percent :
    (timestamp before after content s rest : List ℕ) (c : ℕ)
    → IsPlain before
    → IsPlain after
    → IsPlain s
    → c ≢ b'%'
    → length before + length s + length rest + length after ≤ 10230
    → log_dev timestamp
        (before ++ b'%' ∷ b's' ∷ after)
        (text (s ++ b'%' ∷ c ∷ rest) ∷ [])
        (opened content)
      ≡ faults
unfolding log_dev
log_dev-percent timestamp before after content s rest c v w u ne short =
    let name = s ++ b'%' ∷ c ∷ rest in
    let size : length (before ++ (name ++ after)) ≤ 10232 = omega (
      arith,
      length-append before (name ++ after),
      length-append name after,
      length-append s (b'%' ∷ c ∷ rest),
    ) in
    let apart : before ++ (name ++ after) ≡ (before ++ s) ++ b'%' ∷ c ∷ (rest ++ after) =
      ap (λ l. before ++ l) (append_assoc s (b'%' ∷ c ∷ rest) after)
      ∙ sym (append_assoc before s _) in
    log_with-percent debug timestamp (before ++ b'%' ∷ b's' ∷ after) (text name ∷ []) content
      (before ++ (name ++ after)) debug-IsPlain refl (format-one_text before name after v w) size
      (before ++ s) c (rest ++ after) apart (IsPlain-append before s v u) ne
