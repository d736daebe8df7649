-- ===== src/Packet/Release.antt =====
-- Which packets of packet_implem.c can be released.
use projet.Base.{◌≡◌, ◌≢◌, refl}
use projet.Base.Exec.{ok}
use projet.Packet.{Pkt, Pointer, wild, null, block, release, released, pkt_del}

-- A pointer that was set can be released.
release-owned : (pointer : Pointer) → pointer ≢ wild → release pointer ≡ ok tt
unfolding release
release-owned wild h = absurd (h refl)
release-owned null h = refl
release-owned (block bytes) h = refl

pub pkt_del-owned : (pkt : Pkt) → pkt.payload ≢ wild → pkt_del pkt ≡ ok (released pkt)
unfolding pkt_del
pkt_del-owned pkt h = rw (release-owned pkt.payload h) refl
