-- ===== src/Registry/Links.antt =====
-- The operations of the store on the links between servers (backend/store.go, lines 575-623).
use beacle.Prelude.{
  Text, codes, Map, lookup, insert, erase, has, values, Bool, true, false, ◌&&◌, ◌||◌, List, [],
  ◌∷◌, Option, none, some, if◌then◌else◌, text_eq,
}
use beacle.Models.{Link}
use beacle.Registry.{Store, persist}

-- The link joins the two servers, in either direction.
unfoldable pub joins : Text → Text → Link → Bool
joins a b l =
    (text_eq l.from_vps a && text_eq l.to_vps b) || (text_eq l.from_vps b && text_eq l.to_vps a)

unfoldable pub find_link : (Link → Bool) → Map Link → Option Link
find_link p [] = none
find_link p ((k, l) ∷ m) = if p l then some l else find_link p m

module _ {Snapshot : Type 0} where
  unfoldable pub set_links : Map Link → Store Snapshot → Store Snapshot
  set_links m s = record s { state = record (s.state) { links = m } }

  -- `CreateLink`
  unfoldable pub create_link : Text → Text → Text → Store Snapshot → Link × Store Snapshot
  unfolding set_links
  create_link id from to s =
      let link : Link = record {
        id = id;
        from_vps = from;
        to_vps = to;
        status = codes "unknown";
      } in
      elim (find_link (joins from to) s.state.links) [
        | some l ↦ (l, s)
        | none ↦ (link, persist (set_links (insert id link s.state.links) s))
      ]

  -- `UpdateLink`
  unfoldable pub update_link : Text → (Link → Link) → Store Snapshot → Option Link × Store Snapshot
  unfolding set_links
  update_link id f s = elim (lookup id s.state.links) [
    | some l ↦ (some (f l), persist (set_links (insert id (f l) s.state.links) s))
    | none ↦ (none, s)
  ]

  -- `DeleteLink`
  unfoldable pub delete_link : Text → Store Snapshot → Bool × Store Snapshot
  unfolding set_links
  delete_link id s =
      if has id s.state.links
      then (true, persist (set_links (erase id s.state.links) s))
      else (false, s)

  -- `ListLinks`
  unfoldable pub list_links : Store Snapshot → List Link
  list_links s = values s.state.links
