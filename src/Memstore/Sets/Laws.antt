-- ===== src/Memstore/Sets/Laws.antt =====
-- The inner loops of SInter, SUnion and SDiff in internal/storage/memstore/store.go.
use cache_pot.Prelude.{not, ◌&&◌, ◌||◌, [], ◌∷◌, ◌≡◌, ◌∙◌, arith, Bytes, beq, beq_iff}
use cache_pot.GoMap.{lookup, has, put, remove}
use cache_pot.GoMap.Laws.{lookup-put, lookup-remove}
use cache_pot.Memstore.Sets.{Members, inter_loop, union_loop, diff_loop}

has-put : (x y : Bytes) (m : Members) → has y (put x tt m) ≡ (beq x y || has y m)
has-put x y m = ground (arith, lookup-put x y tt m)

has-remove : (x y : Bytes) (m : Members) → has y (remove x m) ≡ (not (beq x y) && has y m)
has-remove x y m = ground (arith, lookup-remove x y m)

has-cons : (x y : Bytes) (u : Unit {0}) (m : Members) → has y ((x, u) ∷ m) ≡ (beq x y || has y m)
unfolding lookup
has-cons x y u m = ground arith

pub has-inter_loop :
    (r snap next : Members) (x : Bytes)
    → has x (inter_loop r snap next) ≡ (has x r && has x snap || has x next)
unfolding inter_loop lookup
has-inter_loop [] snap next x = ground arith
has-inter_loop ((m, u) ∷ r) snap next x =
    has-inter_loop r snap _ x ∙ ground (arith, has-cons m x u r, has-put m x next, beq_iff m x)

pub has-union_loop :
    (snap r : Members) (x : Bytes) → has x (union_loop snap r) ≡ (has x snap || has x r)
unfolding union_loop lookup
has-union_loop [] r x = ground arith
has-union_loop ((m, u) ∷ snap) r x =
    has-union_loop snap (put m tt r) x ∙ ground (arith, has-cons m x u snap, has-put m x r)

pub has-diff_loop :
    (snap r : Members) (x : Bytes) → has x (diff_loop snap r) ≡ (has x r && not (has x snap))
unfolding diff_loop lookup
has-diff_loop [] r x = ground arith
has-diff_loop ((m, u) ∷ snap) r x =
    has-diff_loop snap (remove m r) x ∙ ground (arith, has-cons m x u snap, has-remove m x r)
