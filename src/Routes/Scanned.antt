-- ===== src/Routes/Scanned.antt =====
-- What the scan of the routes notes stays noted.
use nestjs_template.Common.{
  String, ◌≡◌, refl, true, Bool, List, [], ◌∷◌, ◌++◌, map, Has, here, there, ===_refl, or_else,
  Bool-cases, inl, inr, arith,
}
use nestjs_template.Roles.Discovery.{
  Item, Handler, Controller, has_key, note, note_all, handler_keys, scan_handlers, scan_controllers,
  resource_of, key_to_name,
}
use nestjs_template.Routes.{RouteController, handler_of, scanned, true_or_false}

-- Once noted, a key stays.
has_key-append :
    (seen more : List Item) (k : String) → has_key seen k ≡ true → has_key (seen ++ more) k ≡ true
has_key-append [] more k h = absurd cc
has_key-append (i ∷ seen) more k h = ground (arith, has_key-append seen more k)

has_key-last : (seen : List Item) (i : Item) → has_key (seen ++ i ∷ []) i.key ≡ true
has_key-last [] i = rw (===_refl i.key) refl
has_key-last (j ∷ seen) i = ground (arith, has_key-last seen i)

note-kept :
    (seen : List Item) (j k : String) → has_key seen k ≡ true → has_key (note seen j) k ≡ true
note-kept seen j k h = elim (Bool-cases (has_key seen j)) [
  | inl e ↦ rw e h
  | inr e ↦ rw e (has_key-append seen _ k h)
]

note-added : (seen : List Item) (k : String) → has_key (note seen k) k ≡ true
note-added seen k = elim (Bool-cases (has_key seen k)) [
  | inl e ↦ rw e e
  | inr e ↦ rw e (has_key-last seen (record { key = k; name = key_to_name k }))
]

note_all-kept :
    (seen : List Item) (keys : List String) (k : String)
    → has_key seen k ≡ true
    → has_key (note_all seen keys) k ≡ true
note_all-kept seen [] k h = h
note_all-kept seen (j ∷ keys) k h = note_all-kept (note seen j) keys k (note-kept seen j k h)

note_all-added :
    (seen : List Item) (keys : List String) (k : String)
    → Has k keys
    → has_key (note_all seen keys) k ≡ true
note_all-added seen [] k m = elim m [ ]
note_all-added seen (j ∷ keys) k here = note_all-kept (note seen j) keys j (note-added seen j)
note_all-added seen (j ∷ keys) k (there m) = note_all-added (note seen j) keys k m

module _ (resource : String) (class_skip : Bool) where
  scan_handlers-kept :
      (seen : List Item) (hs : List Handler) (k : String)
      → has_key seen k ≡ true
      → has_key (scan_handlers resource class_skip seen hs) k ≡ true
  unfolding scan_handlers
  scan_handlers-kept seen [] k h = h
  scan_handlers-kept seen (x ∷ hs) k h =
      scan_handlers-kept (note_all seen (handler_keys resource class_skip x)) hs k
        (note_all-kept seen (handler_keys resource class_skip x) k h)

  scan_handlers-added :
      (seen : List Item) (hs : List Handler) (x : Handler) (k : String)
      → Has x hs
      → Has k (handler_keys resource class_skip x)
      → has_key (scan_handlers resource class_skip seen hs) k ≡ true
  unfolding scan_handlers
  scan_handlers-added seen [] x k p m = elim p [ ]
  scan_handlers-added seen (y ∷ hs) x k here m =
      scan_handlers-kept (note_all seen (handler_keys resource class_skip y)) hs k
        (note_all-added seen (handler_keys resource class_skip y) k m)
  scan_handlers-added seen (y ∷ hs) x k (there p) m =
      scan_handlers-added (note_all seen (handler_keys resource class_skip y)) hs x k p m

scan_controllers-kept :
    (cs : List Controller) (seen : List Item) (k : String)
    → has_key seen k ≡ true
    → has_key (scan_controllers seen cs) k ≡ true
unfolding scan_controllers
scan_controllers-kept [] seen k h = h
scan_controllers-kept (c ∷ cs) seen k h = elim (Bool-cases c.resolved) [
  | inl e ↦
      scan_controllers-kept cs _ k
        (rw e (scan_handlers-kept (resource_of (or_else c.path "")) c.skip seen c.handlers k h))
  | inr e ↦ scan_controllers-kept cs _ k (rw e h)
]

pub scan_controllers-added :
    (cs : List RouteController) (seen : List Item) (c : RouteController) (x : Handler) (k : String)
    → Has c cs
    → Has x (map handler_of c.routes)
    → Has k (handler_keys (resource_of c.path) (true_or_false c.skip) x)
    → has_key (scan_controllers seen (map scanned cs)) k ≡ true
unfolding scan_controllers scanned
scan_controllers-added [] seen c x k at_ p m = elim at_ [ ]
scan_controllers-added (d ∷ cs) seen c x k here p m = scan_controllers-kept (map scanned cs) _ k (
    scan_handlers-added (resource_of d.path) (true_or_false d.skip) seen (map handler_of d.routes) x
      k p m)
scan_controllers-added (d ∷ cs) seen c x k (there q) p m = scan_controllers-added cs _ c x k q p m
