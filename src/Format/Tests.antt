-- ===== src/Format/Tests.antt =====
-- Texts that the program makes.
use dreamboat_rpc.Prelude.{◌≡◌, refl, [], ◌∷◌, ◌^◌, ◌-◌}
use dreamboat_rpc.Run.{ok, faults}
use dreamboat_rpc.Format.{int, text, decimal, int_text, convert, format}

minus : int_text (2 ^ 32 - 12) ≡ b'-' ∷ b'1' ∷ b'2' ∷ []
unfolding int_text decimal
minus = refl

host :
    format (b'%' ∷ b's' ∷ b':' ∷ b'%' ∷ b'd' ∷ []) (text (b'a' ∷ []) ∷ int 80 ∷ [])
    ≡ ok (b'a' ∷ b':' ∷ b'8' ∷ b'0' ∷ [])
unfolding format convert int_text decimal
host = refl

no_argument : format (b'%' ∷ b'd' ∷ []) [] ≡ faults
unfolding format convert
no_argument = refl
