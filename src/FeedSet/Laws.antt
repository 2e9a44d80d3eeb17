-- ===== src/FeedSet/Laws.antt =====
-- What the operations do to membership, and what a listing of a set holds.

use metalife_pub.Prelude.{
  List, [], ◌∷◌, Bool, false, not, ◌&&◌, ◌||◌, ◌≡◌, sym, arith, String, eqb, string_eq, nat_eq,
  list_eq, pair_eq, bool_eq,
}
use metalife_pub.GoMap.Laws.{lookup-insert, lookup-delete, lookup-cons, lookup-nil}
use metalife_pub.FeedSet.{FeedSet, add_ref, delete_ref, list, has_ref}

pub has-add_ref :
    (f g : String) (fs : FeedSet) → has_ref (add_ref f fs) g ≡ (eqb f g || has_ref fs g)
unfolding has_ref add_ref
has-add_ref f g fs = ground (arith, lookup-insert f g tt fs)

pub has-delete_ref :
    (f g : String) (fs : FeedSet) → has_ref (delete_ref f fs) g ≡ (not (eqb f g) && has_ref fs g)
unfolding has_ref delete_ref
has-delete_ref f g fs = ground (arith, lookup-delete f g fs)

pub has-nil : (g : String) → has_ref [] g ≡ false
unfolding has_ref
has-nil g = rw (lookup-nil {V = Unit {0}} g)

pub has-cons : (f g : String) (fs : FeedSet) → has_ref ((f, tt) ∷ fs) g ≡ (eqb f g || has_ref fs g)
unfolding has_ref
has-cons f g fs = ground (arith, lookup-cons g f tt fs)

-- A listing holds the members.
abbrev pub listed : List String → String → Bool
listed [] g = false
listed (f ∷ fs) g = eqb f g || listed fs g

pub listed-list : (fs : FeedSet) (g : String) → listed (list fs) g ≡ has_ref fs g
unfolding list
listed-list [] g = sym (has-nil g)
listed-list ((f, u) ∷ fs) g = ground (arith, has-cons f g fs, listed-list fs g)
