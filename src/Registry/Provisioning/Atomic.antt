-- ===== src/Registry/Provisioning/Atomic.antt =====
-- A call of device-registry that fails leaves the tables as they were.
use green_lab.Prelude.{
  inl, inr, Bool-cases, ◌∙◌, ◌≡◌, ◌≢◌, refl, sym, subst, String, Bool, true, false, Option, List,
  str_eq, arith, if◌then◌else◌,
}
use green_lab.Prelude.Actions.{done, failed, ◌>>=◌, ◌>>◌, return, from, ignore, require, resume}
use green_lab.Prelude.Actions.Keeps.{Keeps, Keeps-all, Keeps-from, Keeps-require}
use green_lab.Ingestion.Domain.{Time}
use green_lab.Registry.Device.{RegistryError, Answer, Device, RegistryLib}
use green_lab.Registry.Channel.{Channel, Field}
use green_lab.Registry.Tables.{Db, DbCall, tx_begin, Step, get_channel_row}
use green_lab.Registry.Cache.{run_in_tx, committed}
use green_lab.Registry.Devices.{parse_id, CreateDeviceInput, create_device}
use green_lab.Registry.Provisioning.{
  ProvisionInput, provision_with_new_channel, provision_with_existing_channel, provision,
}

-- The tables are these.
abbrev pub Tables : List Device → List Channel → List Field → Db → Type 0
Tables ds cs fs s = (s.devices ≡ ds) × (s.channels ≡ cs) × (s.fields ≡ fs)

-- A computation that never changes the tables.
abbrev Reads : {A : Type 0} → Step A → Type 0
Reads m = (ds : List Device) (cs : List Channel) (fs : List Field) → Keeps (Tables ds cs fs) m

-- A computation that does not change the tables if it fails.
record Atomic {A : Type 0} (m : Step A) : Type 0 where
  atomic :
      (ds : List Device) (cs : List Channel) (fs : List Field) (s : Db) (e : RegistryError)
      → Tables ds cs fs s
      → (m s).1 ≡ failed e
      → Tables ds cs fs (m s).0

-- A computation that does not fail.
record Succeeds {A : Type 0} (m : Step A) : Type 0 where
  succeeds : (s : Db) (e : RegistryError) → (m s).1 ≢ failed e

read-resume :
    {A B : Type 0} (t : Db) (o : Answer A) (f : A → Step B)
    → ((a : A) → Atomic (f a))
    → (ds : List Device) (cs : List Channel) (fs : List Field) (e : RegistryError)
    → Tables ds cs fs t
    → (resume t o f).1 ≡ failed e
    → Tables ds cs fs (resume t o f).0
read-resume t (failed x) f k ds cs fs e h g = h
read-resume t (done a) f k ds cs fs e h g = (k a).atomic ds cs fs t e h g

Atomic-read :
    {A B : Type 0} {m : Step A} {f : A → Step B}
    → Reads m
    → ((a : A) → Atomic (f a))
    → Atomic (m >>= f)
unfolding ◌>>=◌
Atomic-read {m = m} {f = f} hm hf = record {
  atomic =
      λ ds cs fs s e h g. read-resume (m s).0 (m s).1 f hf ds cs fs e ((hm ds cs fs).keeps s h) g;
}

last-resume :
    {A B : Type 0} (t : Db) (o : Answer A) (f : A → Step B)
    → ((a : A) → Succeeds (f a))
    → (e : RegistryError) → (resume t o f).1 ≡ failed e
    → (x : RegistryError) × (o ≡ failed x) × ((resume t o f).0 ≡ t)
last-resume t (failed x) f k e h = (x, refl, refl)
last-resume t (done a) f k e h = absurd ((k a).succeeds t e h)

Atomic-last :
    {A B : Type 0} {m : Step A} {f : A → Step B}
    → Atomic m
    → ((a : A) → Succeeds (f a))
    → Atomic (m >>= f)
unfolding ◌>>=◌
Atomic-last {m = m} {f = f} hm hf = record {
  atomic = λ ds cs fs s e h g.
      let (x, ho, same) = last-resume (m s).0 (m s).1 f hf e g in
      subst (Tables ds cs fs) (sym same) (hm.atomic ds cs fs s x h ho);
}

Succeeds-return : {A : Type 0} (a : A) → Succeeds (return a)
unfolding return
Succeeds-return a = record { succeeds = λ s e h. absurd (cc) }

Succeeds-ignore : {A : Type 0} (m : Step Unit) (k : Step A) → Succeeds k → Succeeds (ignore m >> k)
unfolding ignore ◌>>=◌
Succeeds-ignore m k h = record { succeeds = λ s e. h.succeeds (m s).0 e }

Atomic-if :
    {A : Type 0} (b : Bool) {m k : Step A} → Atomic m → Atomic k → Atomic (if b then m else k)
Atomic-if true hm hk = hm
Atomic-if false hm hk = hk

module _ (down : DbCall → Bool) (now : Time) where
  committed-Tables :
      {A : Type 0} (s : Db) (out : Db × Answer A) (e : RegistryError)
      → (committed down now s out).1 ≡ failed e
      → Tables s.devices s.channels s.fields (committed down now s out).0
  unfolding committed
  committed-Tables s (t, failed x) e h = (refl, refl, refl)
  committed-Tables s (t, done a) e h = ground arith

  run_in_tx-Tables :
      {A : Type 0} (m : Step A) (s : Db) (e : RegistryError)
      → (run_in_tx down now m s).1 ≡ failed e
      → Tables s.devices s.channels s.fields (run_in_tx down now m s).0
  unfolding run_in_tx
  run_in_tx-Tables m s e g = elim (Bool-cases (down tx_begin)) [
    | inl d ↦ rw d (refl, refl, refl)
    | inr d ↦ rw d (committed-Tables s (m s) e (rw d at g))
  ]

  Atomic-run_in_tx : {A : Type 0} (m : Step A) → Atomic (run_in_tx down now m)
  Atomic-run_in_tx m = record {
    atomic = λ ds cs fs s e h g.
        let (devices, channels, fields) = run_in_tx-Tables m s e g in
        (devices ∙ h.0, channels ∙ h.1, fields ∙ h.2);
  }

  Reads-get_channel_row : (id : String) → Reads (get_channel_row down now id)
  unfolding get_channel_row
  Reads-get_channel_row id ds cs fs = Keeps-all (Tables ds cs fs) (λ s h. ground arith)

  module _ (lib : RegistryLib) where
    Reads-parse_id : (text : String) → Reads (parse_id lib down now text)
    Reads-parse_id text ds cs fs = Keeps-from (Tables ds cs fs) _

    Reads-from : {A : Type 0} (o : Answer A) → Reads (from o)
    Reads-from o ds cs fs = Keeps-from (Tables ds cs fs) o

    Reads-require : (b : Bool) (e : RegistryError) → Reads (require b e)
    Reads-require b e ds cs fs = Keeps-require (Tables ds cs fs) b e

    Atomic-provision_with_new_channel :
        (channel_id : String) (input : ProvisionInput) (workspace_id : String) (d : Device)
        → Atomic (provision_with_new_channel lib down now channel_id input workspace_id d)
    unfolding provision_with_new_channel
    Atomic-provision_with_new_channel channel_id input workspace_id d =
        Atomic-read (Reads-from _) (λ made. Atomic-read (Reads-from _) (λ fields.
          Atomic-last (Atomic-run_in_tx _) (λ ch. Succeeds-ignore _ _ (Succeeds-return _))))

    Atomic-provision_with_existing_channel :
        (input : ProvisionInput) (workspace_id : String) (d : Device)
        → Atomic (provision_with_existing_channel lib down now input workspace_id d)
    unfolding provision_with_existing_channel
    Atomic-provision_with_existing_channel input workspace_id d =
        Atomic-read (Reads-parse_id _) (λ channel_id.
          Atomic-read (Reads-get_channel_row channel_id) (λ ch.
            Atomic-read (Reads-require _ _) (λ _. Atomic-read (Reads-from _) (λ fields.
              Atomic-last (Atomic-run_in_tx _) (λ _. Succeeds-ignore _ _ (Succeeds-return _))))))

    -- Whatever is asked for, whichever calls of the servers fail, and in whatever state the database
    -- is: if Provision returns an error, then no row of a device, a channel or a field was added,
    -- changed or removed.
    pub provision-Tables :
        (id : String) (random : Option String) (channel_id : String) (input : ProvisionInput)
        (s : Db) (e : RegistryError)
        → (provision lib down now id random channel_id input s).1 ≡ failed e
        → Tables s.devices s.channels s.fields
            (provision lib down now id random channel_id input s).0
    unfolding provision
    provision-Tables id random channel_id input s e =
        let whole = Atomic-read (Reads-parse_id input.workspace_id) (λ workspace_id.
          Atomic-read (Reads-from _) (λ d.
            Atomic-if (str_eq input.existing_channel_id "")
              (Atomic-provision_with_new_channel channel_id input workspace_id d)
              (Atomic-provision_with_existing_channel input workspace_id d))) in
        whole.atomic s.devices s.channels s.fields s e (refl, refl, refl)

    -- The same holds of CreateDevice, with its first channel.
    pub create_device-Tables :
        (id : String) (random : Option String) (channel_id : String) (input : CreateDeviceInput)
        (s : Db) (e : RegistryError)
        → (create_device lib down now id random channel_id input s).1 ≡ failed e
        → Tables s.devices s.channels s.fields
            (create_device lib down now id random channel_id input s).0
    unfolding create_device
    create_device-Tables id random channel_id input s e =
        let whole = Atomic-read (Reads-parse_id input.workspace_id) (λ workspace_id.
          Atomic-read (Reads-from _) (λ created. Atomic-read (Reads-require _ _) (λ _.
            Atomic-read (Reads-from _) (λ made.
              Atomic-last (Atomic-run_in_tx _)
                (λ ch. Succeeds-ignore _ _ (Succeeds-return _)))))) in
        whole.atomic s.devices s.channels s.fields s e (refl, refl, refl)
