-- ===== src/Client/Scramble.antt =====
-- What `ScrambleEntropy` leaves of the entropy that a server sent.
use nrp_reference.Base.{ℕ, suc, ◌≡◌, refl, [], ◌∷◌, arith, length}
use nrp_reference.Protocol.Layout.{Bytes}
use nrp_reference.Client.Entropy.{zero_out}

pub length-zero_out :
    (secret : Bytes) (idx : ℕ) (bs : Bytes) → length (zero_out secret idx bs) ≡ length bs
unfolding zero_out
length-zero_out secret idx [] = refl
length-zero_out secret idx (b ∷ bs) = omega (arith, length-zero_out secret (suc idx) bs)
