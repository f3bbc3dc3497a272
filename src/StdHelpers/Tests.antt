-- ===== src/StdHelpers/Tests.antt =====
-- Addresses of both families.
use nrp_reference.Base.{◌+◌, ◌≡◌, refl, true, [], ◌∷◌}
use nrp_reference.Base.Memory.{memcmp}
use nrp_reference.StdHelpers.{SockaddrStorage, sockaddr_eq, sockaddr_hash}
use nrp_reference.StdHelpers.Laws.{sockaddr_hash-sockaddr_eq}

abbrev from_one_port : SockaddrStorage
from_one_port = record { ss_family = 2; sa = 31 ∷ 144 ∷ 10 ∷ 0 ∷ 0 ∷ 1 ∷ [] }

abbrev from_another_port : SockaddrStorage
from_another_port = record { ss_family = 2; sa = 4 ∷ 210 ∷ 10 ∷ 0 ∷ 0 ∷ 1 ∷ [] }

same_address : sockaddr_eq from_one_port from_another_port ≡ true
unfolding sockaddr_eq memcmp
same_address = refl

sockaddr_hash-sockaddr_eq_example :
    sockaddr_hash (λ n. n + 1) from_one_port ≡ sockaddr_hash (λ n. n + 1) from_another_port
sockaddr_hash-sockaddr_eq_example =
    sockaddr_hash-sockaddr_eq (λ n. n + 1) from_one_port from_another_port same_address
