-- ===== src/Registry/Keys/Deleted.antt =====
-- What a deleted device and a deleted channel are to the queries of the other services.
use green_lab.Prelude.{
  ◌≡◌, refl, sym, ◌∙◌, ap, String, Bool, Bool-cases, inl, inr, ◌&&◌, List, [], ◌∷◌, ◌++◌, map,
  str_eq, arith,
}
use green_lab.Prelude.Actions.{done, failed}
use green_lab.Prelude.Actions.Gives.{Gives, bind-Gives, from-Gives}
use green_lab.Ingestion.Domain.{Time}
use green_lab.Registry.Device.{Answer, Device, RegistryLib}
use green_lab.Registry.Channel.{Channel, Field}
use green_lab.Registry.Tables.{
  Db, DbCall, key_query, has_device, delete_channel_row, delete_channel_rows,
}
use green_lab.Registry.Channels.{delete_channel}
use green_lab.Registry.Keys.{
  select, join, pairings, field_rows, key_answer, query_key, as_uuid, validate_api_key,
}

select-map :
    {A : Type 0} (p : A → Bool) (f : A → A) (rows : List A)
    → ((a : A) → p (f a) ≡ p a)
    → select p (map f rows) ≡ map f (select p rows)
select-map p f [] h = refl
select-map p f (a ∷ rows) h = elim (Bool-cases (p a)) [
  | inl kept ↦ rw (h a, kept) (ap (λ rest. f a ∷ rest) (select-map p f rows h))
  | inr dropped ↦ rw (h a, dropped) (select-map p f rows h)
]

map-append : {A B : Type 0} (f : A → B) (xs ys : List A) → map f (xs ++ ys) ≡ map f xs ++ map f ys
map-append f [] ys = refl
map-append f (x ∷ xs) ys = ap (λ rest. f x ∷ rest) (map-append f xs ys)

join-map :
    {A B : Type 0} (f : B → B) (h k : A → List B) (rows : List A)
    → ((a : A) → k a ≡ map f (h a))
    → join k rows ≡ map f (join h rows)
join-map f h k [] e = refl
join-map f h k (a ∷ rows) e =
    rw (e a, join-map f h k rows e) (sym (map-append f (h a) (join h rows)))

abbrev with_channel : (Channel → Channel) → Device × Channel → Device × Channel
with_channel f (d, c) = (d, f c)

map-pair :
    (d : Device) (f : Channel → Channel) (cs : List Channel)
    → map (λ c. (d, c)) (map f cs) ≡ map (with_channel f) (map (λ c. (d, c)) cs)
map-pair d f [] = refl
map-pair d f (c ∷ cs) = ap (λ rest. (d, f c) ∷ rest) (map-pair d f cs)

module _ (f : Channel → Channel) (same_id : (c : Channel) → (f c).id ≡ c.id) where
  module _ (same_device : (c : Channel) → (f c).device_id ≡ c.device_id) where
    pairings-map :
        (key channel_id : String) (devices : List Device) (channels : List Channel)
        → pairings key channel_id devices (map f channels)
          ≡ map (with_channel f) (pairings key channel_id devices channels)
    pairings-map key channel_id devices channels = join-map (with_channel f) _ _ _ (λ d.
        ap (map (λ c. (d, c))) (
          select-map (λ c. has_device d.id c && str_eq c.id channel_id) f channels
            (λ c. rw (same_id c, same_device c)))
        ∙ map-pair d f _)

    field_rows-map :
        (pairs : List (Device × Channel)) (fields : List Field)
        → field_rows (map (with_channel f) pairs) fields ≡ field_rows pairs fields
    field_rows-map [] fields = refl
    field_rows-map ((d, c) ∷ pairs) fields = rw (same_id c, field_rows-map pairs fields)

    key_answer-map :
        (pairs : List (Device × Channel)) (rows : List (Device × Field))
        → key_answer (map (with_channel f) pairs) rows ≡ key_answer pairs rows
    key_answer-map [] [] = refl
    key_answer-map ((d, c) ∷ pairs) [] = refl
    key_answer-map [] ((d, g) ∷ rows) = refl
    key_answer-map ((e, c) ∷ pairs) ((d, g) ∷ rows) = refl

    query_key-map :
        (lib : RegistryLib) (down : DbCall → Bool) (key : String) (s : Db) (id : Answer String)
        → query_key lib down key (record s { channels = map f s.channels }) id
          ≡ query_key lib down key s id
    query_key-map lib down key s (failed e) = refl
    query_key-map lib down key s (done id) =
        let pairs = pairings key id s.devices s.channels in
        rw (pairings-map key id s.devices s.channels, field_rows-map pairs s.fields)
          (key_answer-map pairs _)

delete_channel_row-id :
    (now : Time) (id : String) (c : Channel) → (delete_channel_row now id c).id ≡ c.id
unfolding delete_channel_row
delete_channel_row-id now id c = ground arith

delete_channel_row-device_id :
    (now : Time) (id : String) (c : Channel) → (delete_channel_row now id c).device_id ≡ c.device_id
unfolding delete_channel_row
delete_channel_row-device_id now id c = ground arith

module _ (lib : RegistryLib) (down : DbCall → Bool) (now : Time) where
  delete_channel_rows-Gives :
      (id : String) (s t : Db) (x : Unit)
      → Gives (delete_channel_rows down now id) s x t
      → t ≡ record s { channels = map (delete_channel_row now id) s.channels }
  unfolding delete_channel_rows
  delete_channel_rows-Gives id s t x h = ground arith

  -- DeleteChannel changes no answer about an API key: after it has succeeded, the question whether a
  -- key may write to a channel has, for every key and every channel, the deleted one included, the
  -- answer that it had before, if neither question fails.
  pub validate_api_key-delete_channel :
      (later_down : DbCall → Bool) (text key channel_id : String) (s t : Db)
      → delete_channel lib down now text s ≡ (t, done tt)
      → (validate_api_key lib later_down key channel_id t).1
        ≡ (validate_api_key lib later_down key channel_id s).1
  unfolding delete_channel validate_api_key
  validate_api_key-delete_channel later_down text key channel_id s t h =
      let (id, a, ha, h1) = bind-Gives _ _ s t tt h in
      let t_is = delete_channel_rows-Gives id a t tt h1 in
      let a_is = (from-Gives _ s a id ha).1 in
      let whole =
        t_is
        ∙ ap (λ (q : Db). record q { channels = map (delete_channel_row now id) q.channels })
            a_is in
      let same =
        query_key-map (delete_channel_row now id) (delete_channel_row-id now id)
          (delete_channel_row-device_id now id) lib later_down key s
          (as_uuid lib later_down channel_id) in
      rw whole (elim (Bool-cases (later_down key_query)) [ inl d ↦ rw d refl | inr d ↦ rw d same ])
