-- ===== src/Server/Inventory/Counts.antt =====
-- The three endpoints agree with each other.
use ree0x_q.Base.{Bool, List, [], ◌∷◌, length, count, ◌≡◌, refl, ◌∙◌, sym, arith}
use ree0x_q.Core.{DateTime, CryptoInventoryEvent}
use ree0x_q.Server.Store.{InMemoryEventStore, latest_per_asset}
use ree0x_q.Server.Posture.{Float}
use ree0x_q.Server.Inventory.{
  InventoryItem, Settings, event_is_blocked, insert_item, sort_items, inventory_items, inventory,
  blocked_items, blocked_assets, org_posture,
}

abbrev pub item_is_blocked : InventoryItem → Bool
item_is_blocked i = i.blocked

module _ (f : Float) (st : Settings) (s : InMemoryEventStore) (now : DateTime) where
  count-insert_item :
      (p : InventoryItem → Bool) (i : InventoryItem) (is : List InventoryItem)
      → count p (insert_item f st s now i is) ≡ count p (i ∷ is)
  count-insert_item p i [] = refl
  count-insert_item p i (j ∷ js) = ground (arith, count-insert_item p i js)

  count-sort_items :
      (p : InventoryItem → Bool) (is : List InventoryItem)
      → count p (sort_items f st s now is) ≡ count p is
  count-sort_items p [] = refl
  count-sort_items p (i ∷ is) =
      ground (arith, count-insert_item p i (sort_items f st s now is), count-sort_items p is)

  length-inventory_items :
      (evs : List CryptoInventoryEvent) → length (inventory_items f st s now evs) ≡ length evs
  length-inventory_items [] = refl
  length-inventory_items (ev ∷ evs) = omega (arith, length-inventory_items evs)

  length-blocked_items :
      (evs : List CryptoInventoryEvent)
      → length (blocked_items f st s now evs) ≡ count event_is_blocked evs
  length-blocked_items [] = refl
  length-blocked_items (ev ∷ evs) = ground (arith, length-blocked_items evs)

  count-inventory_items :
      (evs : List CryptoInventoryEvent)
      → count item_is_blocked (inventory_items f st s now evs) ≡ count event_is_blocked evs
  count-inventory_items [] = refl
  count-inventory_items (ev ∷ evs) = ground (arith, count-inventory_items evs)

  count-blocked_items :
      (evs : List CryptoInventoryEvent)
      → count item_is_blocked (blocked_items f st s now evs) ≡ count event_is_blocked evs
  count-blocked_items [] = refl
  count-blocked_items (ev ∷ evs) = ground (arith, count-blocked_items evs)

  -- The endpoints agree on any store and at one time: the inventory has as many rows as the
  -- posture has assets; the blocked list has as many rows as the posture counts blocked assets,
  -- and as many as the inventory flags; and every row of the blocked list is flagged.
  pub inventory-blocked_assets-org_posture :
      ((inventory f st s now).count ≡ (org_posture f st s now).assets)
      × ((blocked_assets f st s now).count ≡ (org_posture f st s now).blocked_count)
      × (count item_is_blocked (inventory f st s now).items
          ≡ (org_posture f st s now).blocked_count)
      × (count item_is_blocked (blocked_assets f st s now).items
          ≡ (blocked_assets f st s now).count)
  unfolding inventory blocked_assets org_posture
  inventory-blocked_assets-org_posture =
      let evs = latest_per_asset s in
      (
        length-inventory_items evs,
        length-blocked_items evs,
        count-sort_items item_is_blocked (inventory_items f st s now evs)
            ∙ count-inventory_items evs,
        count-sort_items item_is_blocked (blocked_items f st s now evs)
            ∙ count-blocked_items evs
            ∙ sym (length-blocked_items evs),
      )
