-- ===== src/Rendition/Candidates/Tiers.antt =====
-- The order in which `candidates` has pipelines tried.
use torrent_go.Prelude.{
  ℕ, ◌≤◌, ◌≡◌, refl, sym, ap, ◌∙◌, inl, inr, Bool, true, false, if◌then◌else◌, if_both, if_true,
  if_false, Bool-cases, List, [], ◌∷◌, ◌++◌, arith,
}
use mathlib.Core.List.{Perm}
use mathlib.Core.List.Perm
use mathlib.Core.Path.{subst}
use torrent_go.Rendition.Candidates.{
  ProviderKind, copy_kind, hardware_kind, cpu_kind, unknown_kind, DecodeMode, decode_copy,
  decode_hardware, decode_software, Device, Provider, PipelineCandidate, Config, Tokens, Buckets,
  allowed, place, of_devices, of_providers, in_use, less, insert_stable, sort_stable, candidates,
}

abbrev pub All : {A : Type 0} → (A → Type 0) → List A → Type 0
All P [] = Unit
All P (x ∷ xs) = P x × All P xs

-- In ascending order of `f`.
abbrev pub Ascending : {A : Type 0} → (A → ℕ) → List A → Type 0
Ascending f [] = Unit
Ascending f (x ∷ xs) = All (λ y. f x ≤ f y) xs × Ascending f xs

All-map :
    {A : Type 0} (P Q : A → Type 0) (xs : List A) → ((x : A) → P x → Q x) → All P xs → All Q xs
All-map P Q [] h a = tt
All-map P Q (x ∷ xs) h a = (h x a.0, All-map P Q xs h a.1)

module _ {A : Type 0} (before : A → A → Bool) where
  All-insert_stable :
      (P : A → Type 0) (x : A) (ys : List A) → P x → All P ys → All P (insert_stable before x ys)
  unfolding insert_stable
  All-insert_stable P x [] p a = (p, tt)
  All-insert_stable P x (y ∷ ys) p a = elim (Bool-cases (before y x)) [
    | inl h ↦ rw h (a.0, All-insert_stable P x ys p a.1)
    | inr h ↦ rw h (p, a)
  ]

  All-sort_stable : (P : A → Type 0) (xs : List A) → All P xs → All P (sort_stable before xs)
  unfolding sort_stable
  All-sort_stable P [] a = tt
  All-sort_stable P (x ∷ xs) a =
      All-insert_stable P x (sort_stable before xs) a.0 (All-sort_stable P xs a.1)

  -- A comparison that does not put a greater value of `f` first, on the elements with `H`.
  abbrev Respects : (A → Type 0) → (A → ℕ) → Type 0
  Respects H f =
      (y x : A) → H y → H x → (before y x ≡ true → f y ≤ f x) × (before y x ≡ false → f x ≤ f y)

  module _ (H : A → Type 0) (f : A → ℕ) (r : Respects H f) where
    insert_stable-Ascending :
        (x : A) (ys : List A)
        → H x
        → All H ys
        → Ascending f ys
        → Ascending f (insert_stable before x ys)
    unfolding insert_stable
    insert_stable-Ascending x [] hx hs a = (tt, tt)
    insert_stable-Ascending x (y ∷ ys) hx hs a = elim (Bool-cases (before y x)) [
      | inl h ↦ rw h (
        All-insert_stable (λ z. f y ≤ f z) x ys ((r y x hs.0 hx).0 h) a.0,
        insert_stable-Ascending x ys hx hs.1 a.1,
      )
      | inr h ↦
          let le = (r y x hs.0 hx).1 h in
          rw h ((le, All-map _ (λ z. f x ≤ f z) ys (λ z q. omega (arith, le, q)) a.0), a)
    ]

    sort_stable-Ascending : (xs : List A) → All H xs → Ascending f (sort_stable before xs)
    unfolding sort_stable
    sort_stable-Ascending [] h = tt
    sort_stable-Ascending (x ∷ xs) h =
        insert_stable-Ascending x (sort_stable before xs) h.0 (All-sort_stable H xs h.1)
          (sort_stable-Ascending xs h.1)

abbrev pub kind_of : PipelineCandidate → ProviderKind
kind_of c = (c.provider).kind

-- A hardware candidate of the given mode that the device order, if there is one, names.
abbrev pub IsAllowed : Config → DecodeMode → PipelineCandidate → Type 0
IsAllowed cfg mode c =
    (kind_of c ≡ hardware_kind) × (c.mode ≡ mode) × (allowed cfg c.provider c.device ≡ true)

less-Respects :
    (cfg : Config) (tokens : Tokens) (mode : DecodeMode)
    → Respects (less cfg tokens) (IsAllowed cfg mode) (in_use tokens)
unfolding less
less-Respects cfg tokens mode y x hy hx = rw hy.0 (ground arith)

record Filled (cfg : Config) (b : Buckets) : Type 0 where
  pub copies : All (λ c. kind_of c ≡ copy_kind) b.copies
  pub decode : All (IsAllowed cfg decode_hardware) b.decode
  pub upload : All (IsAllowed cfg decode_software) b.upload
  pub cpus : All (λ c. kind_of c ≡ cpu_kind) b.cpus

place-Filled :
    (kind : ProviderKind) (cfg : Config) (p : Provider) (d : Device) (b : Buckets)
    → p.kind ≡ kind
    → Filled cfg b
    → Filled cfg (place kind cfg p d b)
place-Filled copy_kind cfg p d b e f = record {
  copies = (e, f.copies);
  decode = f.decode;
  upload = f.upload;
  cpus = f.cpus;
}
place-Filled hardware_kind cfg p d b e f = elim (Bool-cases (allowed cfg p d)) [
  | inl h ↦ rw h (record {
    copies = f.copies;
    decode = ((e, refl, h), f.decode);
    upload = ((e, refl, h), f.upload);
    cpus = f.cpus;
  })
  | inr h ↦ rw h f
]
place-Filled cpu_kind cfg p d b e f = record {
  copies = f.copies;
  decode = f.decode;
  upload = f.upload;
  cpus = (e, f.cpus);
}
place-Filled unknown_kind cfg p d b e f = f

of_devices-Filled :
    (cfg : Config) (p : Provider) (ds : List Device) (b : Buckets)
    → Filled cfg b
    → Filled cfg (of_devices cfg p ds b)
unfolding of_devices
of_devices-Filled cfg p [] b f = f
of_devices-Filled cfg p (d ∷ ds) b f =
    place-Filled p.kind cfg p d (of_devices cfg p ds b) refl (of_devices-Filled cfg p ds b f)

of_providers-Filled : (cfg : Config) (ps : List Provider) → Filled cfg (of_providers cfg ps)
unfolding of_providers
of_providers-Filled cfg [] = record { copies = tt; decode = tt; upload = tt; cpus = tt }
of_providers-Filled cfg (p ∷ ps) =
    of_devices-Filled cfg p p.inventory (of_providers cfg ps) (of_providers-Filled cfg ps)

-- Is a device of a provider of the second kind offered to the tier of the first kind? `ok` says that
-- the device order lets it in, which counts for hardware only.
abbrev pub is_offered : ProviderKind → ProviderKind → (ok : Bool) → Bool
is_offered copy_kind copy_kind ok = true
is_offered hardware_kind hardware_kind ok = ok
is_offered cpu_kind cpu_kind ok = true
is_offered _ _ ok = false

-- What all devices of the given providers offer to a tier.
abbrev pub offers_of :
    ProviderKind → DecodeMode → Config → Provider → List Device → List PipelineCandidate
offers_of kind mode cfg p [] = []
offers_of kind mode cfg p (d ∷ ds) =
    if is_offered kind p.kind (allowed cfg p d)
    then record { provider = p; device = d; mode = mode } ∷ offers_of kind mode cfg p ds
    else offers_of kind mode cfg p ds

abbrev pub offers : ProviderKind → DecodeMode → Config → List Provider → List PipelineCandidate
offers kind mode cfg [] = []
offers kind mode cfg (p ∷ ps) = offers_of kind mode cfg p p.inventory ++ offers kind mode cfg ps

-- The four lists after some devices have been placed before `b`.
record Holds (cfg : Config) (p : Provider) (ds : List Device) (b r : Buckets) : Type 0 where
  copies : r.copies ≡ offers_of copy_kind decode_copy cfg p ds ++ b.copies
  decode : r.decode ≡ offers_of hardware_kind decode_hardware cfg p ds ++ b.decode
  upload : r.upload ≡ offers_of hardware_kind decode_software cfg p ds ++ b.upload
  cpus : r.cpus ≡ offers_of cpu_kind decode_software cfg p ds ++ b.cpus

not_hardware :
    (kind : ProviderKind) (ok : Bool) → ok ≡ false → is_offered kind hardware_kind ok ≡ false
not_hardware copy_kind ok e = refl
not_hardware hardware_kind ok e = e
not_hardware cpu_kind ok e = refl
not_hardware unknown_kind ok e = refl

not_unknown : (kind : ProviderKind) (ok : Bool) → is_offered kind unknown_kind ok ≡ false
not_unknown copy_kind ok = refl
not_unknown hardware_kind ok = refl
not_unknown cpu_kind ok = refl
not_unknown unknown_kind ok = refl

module _ (cfg : Config) (p : Provider) (d : Device) (ds : List Device) where
  offered :
      (kind : ProviderKind) (mode : DecodeMode) (xs b : List PipelineCandidate)
      → is_offered kind p.kind (allowed cfg p d) ≡ true
      → xs ≡ offers_of kind mode cfg p ds ++ b
      → record { provider = p; device = d; mode = mode } ∷ xs
        ≡ offers_of kind mode cfg p (d ∷ ds) ++ b
  offered kind mode xs b e h =
      let c : PipelineCandidate = record { provider = p; device = d; mode = mode } in
      let rest = offers_of kind mode cfg p ds in
      ap (λ l. c ∷ l) h
      ∙ sym
          (ap (λ l. l ++ b) (if_true (is_offered kind p.kind (allowed cfg p d)) (c ∷ rest) rest e))

  passed_over :
      (kind : ProviderKind) (mode : DecodeMode) (xs b : List PipelineCandidate)
      → is_offered kind p.kind (allowed cfg p d) ≡ false
      → xs ≡ offers_of kind mode cfg p ds ++ b
      → xs ≡ offers_of kind mode cfg p (d ∷ ds) ++ b
  passed_over kind mode xs b e h =
      let c : PipelineCandidate = record { provider = p; device = d; mode = mode } in
      let rest = offers_of kind mode cfg p ds in
      h
      ∙ sym
          (ap (λ l. l ++ b) (if_false (is_offered kind p.kind (allowed cfg p d)) (c ∷ rest) rest e))

  kind_is :
      (kind : ProviderKind) {own : ProviderKind}
      → p.kind ≡ own
      → is_offered kind p.kind (allowed cfg p d) ≡ is_offered kind own (allowed cfg p d)
  kind_is kind e = ap (λ k. is_offered kind k (allowed cfg p d)) e

  module _ (b r : Buckets) (h : Holds cfg p ds b r) where
    -- The device is offered to no tier.
    unplaced-Holds :
        ((kind : ProviderKind) → is_offered kind p.kind (allowed cfg p d) ≡ false)
        → Holds cfg p (d ∷ ds) b r
    unplaced-Holds n = record {
      copies = passed_over copy_kind _ _ b.copies (n copy_kind) h.copies;
      decode = passed_over hardware_kind _ _ b.decode (n hardware_kind) h.decode;
      upload = passed_over hardware_kind _ _ b.upload (n hardware_kind) h.upload;
      cpus = passed_over cpu_kind _ _ b.cpus (n cpu_kind) h.cpus;
    }

    place-Holds :
        (kind : ProviderKind) → p.kind ≡ kind → Holds cfg p (d ∷ ds) b (place kind cfg p d r)
    place-Holds copy_kind e = record {
      copies = offered copy_kind _ _ b.copies (kind_is copy_kind e) h.copies;
      decode = passed_over hardware_kind _ _ b.decode (kind_is hardware_kind e) h.decode;
      upload = passed_over hardware_kind _ _ b.upload (kind_is hardware_kind e) h.upload;
      cpus = passed_over cpu_kind _ _ b.cpus (kind_is cpu_kind e) h.cpus;
    }
    place-Holds hardware_kind e =
        if_both (Holds cfg p (d ∷ ds) b) (allowed cfg p d)
          (λ a. record {
            copies = passed_over copy_kind _ _ b.copies (kind_is copy_kind e) h.copies;
            decode = offered hardware_kind _ _ b.decode (kind_is hardware_kind e ∙ a) h.decode;
            upload = offered hardware_kind _ _ b.upload (kind_is hardware_kind e ∙ a) h.upload;
            cpus = passed_over cpu_kind _ _ b.cpus (kind_is cpu_kind e) h.cpus;
          })
          (λ a. unplaced-Holds (λ kind. kind_is kind e ∙ not_hardware kind _ a))
    place-Holds cpu_kind e = record {
      copies = passed_over copy_kind _ _ b.copies (kind_is copy_kind e) h.copies;
      decode = passed_over hardware_kind _ _ b.decode (kind_is hardware_kind e) h.decode;
      upload = passed_over hardware_kind _ _ b.upload (kind_is hardware_kind e) h.upload;
      cpus = offered cpu_kind _ _ b.cpus (kind_is cpu_kind e) h.cpus;
    }
    place-Holds unknown_kind e = unplaced-Holds (λ kind. kind_is kind e ∙ not_unknown kind _)

of_devices-Holds :
    (cfg : Config) (p : Provider) (ds : List Device) (b : Buckets)
    → Holds cfg p ds b (of_devices cfg p ds b)
unfolding of_devices
of_devices-Holds cfg p [] b = record { copies = refl; decode = refl; upload = refl; cpus = refl }
of_devices-Holds cfg p (d ∷ ds) b =
    place-Holds cfg p d ds b (of_devices cfg p ds b) (of_devices-Holds cfg p ds b) p.kind refl

record HoldsAll (cfg : Config) (ps : List Provider) (r : Buckets) : Type 0 where
  copies : r.copies ≡ offers copy_kind decode_copy cfg ps
  decode : r.decode ≡ offers hardware_kind decode_hardware cfg ps
  upload : r.upload ≡ offers hardware_kind decode_software cfg ps
  cpus : r.cpus ≡ offers cpu_kind decode_software cfg ps

of_providers-HoldsAll : (cfg : Config) (ps : List Provider) → HoldsAll cfg ps (of_providers cfg ps)
unfolding of_providers
of_providers-HoldsAll cfg [] = record { copies = refl; decode = refl; upload = refl; cpus = refl }
of_providers-HoldsAll cfg (p ∷ ps) =
    let h = of_devices-Holds cfg p p.inventory (of_providers cfg ps) in
    let rest = of_providers-HoldsAll cfg ps in
    record {
      copies =
          h.copies ∙ ap (λ cs. offers_of copy_kind decode_copy cfg p p.inventory ++ cs) rest.copies;
      decode =
          h.decode
          ∙ ap (λ cs. offers_of hardware_kind decode_hardware cfg p p.inventory ++ cs) rest.decode;
      upload =
          h.upload
          ∙ ap (λ cs. offers_of hardware_kind decode_software cfg p p.inventory ++ cs) rest.upload;
      cpus =
          h.cpus ∙ ap (λ cs. offers_of cpu_kind decode_software cfg p p.inventory ++ cs) rest.cpus;
    }

insert_stable-perm :
    {A : Type 0} (before : A → A → Bool) (x : A) (ys : List A)
    → Perm (insert_stable before x ys) (x ∷ ys)
unfolding insert_stable
insert_stable-perm before x [] = Perm.refl (x ∷ [])
insert_stable-perm before x (y ∷ ys) =
    if_both (λ l. Perm l (x ∷ y ∷ ys)) (before y x)
      (λ c. Perm.trans (Perm.cons y (insert_stable-perm before x ys)) (Perm.swap x y ys))
      (λ c. Perm.refl (x ∷ y ∷ ys))

sort_stable-perm :
    {A : Type 0} (before : A → A → Bool) (xs : List A) → Perm (sort_stable before xs) xs
unfolding sort_stable
sort_stable-perm before [] = Perm.refl []
sort_stable-perm before (x ∷ xs) =
    Perm.trans (insert_stable-perm before x (sort_stable before xs))
      (Perm.cons x (sort_stable-perm before xs))

sorted-perm :
    {A : Type 0} (before : A → A → Bool) (xs : List A) {ys : List A}
    → xs ≡ ys
    → Perm (sort_stable before xs) ys
sorted-perm before xs e = subst (Perm (sort_stable before xs)) e (sort_stable-perm before xs)

-- The four tiers of a list of candidates, each with all that the providers offer to it.
pub record Tiers (cfg : Config) (tokens : Tokens) (cs : List PipelineCandidate) : Type 0 where
  pub copies : List PipelineCandidate
  pub decode : List PipelineCandidate
  pub upload : List PipelineCandidate
  pub cpus : List PipelineCandidate
  pub in_order : cs ≡ copies ++ decode ++ upload ++ cpus
  pub all_copies : All (λ c. kind_of c ≡ copy_kind) copies
  pub all_decode : All (IsAllowed cfg decode_hardware) decode
  pub all_upload : All (IsAllowed cfg decode_software) upload
  pub all_cpus : All (λ c. kind_of c ≡ cpu_kind) cpus
  pub every_copy : Perm copies (offers copy_kind decode_copy cfg cfg.providers)
  pub every_decode : Perm decode (offers hardware_kind decode_hardware cfg cfg.providers)
  pub every_upload : Perm upload (offers hardware_kind decode_software cfg cfg.providers)
  pub every_cpu : Perm cpus (offers cpu_kind decode_software cfg cfg.providers)
  pub decode_load : Ascending (in_use tokens) decode
  pub upload_load : Ascending (in_use tokens) upload

-- Candidates are tried in four tiers: copies, hardware that also decodes, hardware that is fed decoded
-- frames, and the CPU last. Each tier has all devices of the providers of its kind, as often as the
-- inventories list them, but for hardware outside the device order, which is left out where there is
-- such an order. Within a hardware tier the devices with fewer tokens in use come first.
pub candidates-Tiers : (cfg : Config) (tokens : Tokens) → Tiers cfg tokens (candidates cfg tokens)
unfolding candidates
candidates-Tiers cfg tokens =
    let b = of_providers cfg cfg.providers in
    let f = of_providers-Filled cfg cfg.providers in
    let o = of_providers-HoldsAll cfg cfg.providers in
    let before = less cfg tokens in
    record {
      copies = sort_stable before b.copies;
      decode = sort_stable before b.decode;
      upload = sort_stable before b.upload;
      cpus = sort_stable before b.cpus;
      in_order = refl;
      all_copies = All-sort_stable before _ b.copies f.copies;
      all_decode = All-sort_stable before _ b.decode f.decode;
      all_upload = All-sort_stable before _ b.upload f.upload;
      all_cpus = All-sort_stable before _ b.cpus f.cpus;
      every_copy = sorted-perm before b.copies o.copies;
      every_decode = sorted-perm before b.decode o.decode;
      every_upload = sorted-perm before b.upload o.upload;
      every_cpu = sorted-perm before b.cpus o.cpus;
      decode_load =
          sort_stable-Ascending before _ (in_use tokens) (less-Respects cfg tokens decode_hardware)
            b.decode f.decode;
      upload_load =
          sort_stable-Ascending before _ (in_use tokens) (less-Respects cfg tokens decode_software)
            b.upload f.upload;
    }
