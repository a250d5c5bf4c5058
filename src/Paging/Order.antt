-- ===== src/Paging/Order.antt =====
-- The order of the rows of a listing.
use buildbeaver.Base.{◌<◌, ◌≡◌, ◌≢◌, ◌↔◌, ◌⊎◌, true, false, arith}
use buildbeaver.Paging.Listing.{Marker, is_older}

pub is_older_iff :
    (m a : Marker)
    → (is_older m a ≡ true)
      ↔ ((a.created_at < m.created_at) ⊎ ((a.created_at ≡ m.created_at) × (a.id < m.id)))
unfolding is_older
is_older_iff m a = ground arith

pub is_older_trans :
    (a b c : Marker) → is_older a b ≡ true → is_older b c ≡ true → is_older a c ≡ true
unfolding is_older
is_older_trans a b c h k = ground arith

-- Of two rows with different IDs one is older.
pub is_older_total : (a b : Marker) → a.id ≢ b.id → is_older a b ≡ false → is_older b a ≡ true
unfolding is_older
is_older_total a b h k = ground arith

pub is_older_irrefl :
    (a b : Marker) → a.id ≡ b.id → a.created_at ≡ b.created_at → is_older a b ≡ false
unfolding is_older
is_older_irrefl a b h k = ground arith
