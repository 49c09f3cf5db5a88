-- ===== src/Bytes/Tests.antt =====
-- The functions on texts, run.
use gkit_go.Prelude.{◌≡◌, refl, some, [], ◌∷◌}
use gkit_go.Bytes.{codes, cut, split, join, trim_left, trim, trim_space, is_space}

splits_list : split b',' (codes "a,,b") ≡ codes "a" ∷ [] ∷ codes "b" ∷ []
unfolding split
splits_list = refl

joins : join b',' (codes "a" ∷ [] ∷ codes "b" ∷ []) ≡ codes "a,,b"
unfolding join
joins = refl

trims : trim_space (codes "  a b ") ≡ codes "a b"
unfolding trim_space trim trim_left is_space
trims = refl

cuts : cut b'=' (codes "K=a=b") ≡ some (codes "K", codes "a=b")
unfolding cut
cuts = refl
