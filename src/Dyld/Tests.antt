-- ===== src/Dyld/Tests.antt =====
-- Variable-length numbers at concrete inputs.
use particles.Base.{◌≡◌, refl, [], ◌∷◌}
use particles.Dyld.{write_uleb128}

written : write_uleb128 624485 ≡ 229 ∷ 142 ∷ 38 ∷ []
unfolding write_uleb128
written = refl
