-- ===== src/Rendition/Candidates.antt =====
-- media/rendition/manager.go `candidates`: which pipelines a rendition may come from, in the order
-- they are tried.
--
-- A provider's inventory is what `Inventory` returns. Performance scores are only compared, so they
-- are numbers. All gates of a key are made with the same limit, so the registry of gates is the
-- number of tokens in use at each key. `sort.SliceStable` is an insertion sort that keeps the order
-- of equal candidates.
pub mod Tiers
use Prim.Native.String.{String}
use text.Mathlib.Text.{◌==◌}
use torrent_go.Rendition.Identity.{identity}
use torrent_go.Prelude.{
  ℕ, zero, suc, ltb, Bool, true, false, not, ◌&&◌, ◌||◌, if◌then◌else◌, Option, none, some, List,
  [], ◌∷◌, ◌++◌,
}

pub data ProviderKind : Type 0 where
  copy_kind hardware_kind cpu_kind unknown_kind : ProviderKind

pub data DecodeMode : Type 0 where
  decode_copy decode_hardware decode_software : DecodeMode

pub record Device : Type 0 where
  pub id : String
  pub performance_score : ℕ

pub record Provider : Type 0 where
  pub name : String
  pub kind : ProviderKind
  pub inventory : List Device

pub record PipelineCandidate : Type 0 where
  pub provider : Provider
  pub device : Device
  pub mode : DecodeMode

-- What `newVideoRenditionManager` sets. `device_rank` has each identity once.
pub record Config : Type 0 where
  pub providers : List Provider
  pub device_rank : List (String × ℕ)
  pub per_device_concurrency : ℕ
  pub cpu_concurrency : ℕ

abbrev pub Tokens : Type 0
Tokens = String → ℕ

abbrev pub key : Provider → Device → String
key p d = identity p.name d.id

abbrev pub rank_in : String → List (String × ℕ) → Option ℕ
rank_in k [] = none
rank_in k ((j, i) ∷ m) = if j == k then some i else rank_in k m

abbrev is_some : Option ℕ → Bool
is_some none = false
is_some (some i) = true

-- The loop of `newVideoRenditionManager` over `DeviceOrder`, from position `i` on.
unfoldable pub add_ranks : ℕ → List String → List (String × ℕ) → List (String × ℕ)
add_ranks i [] m = m
add_ranks i (k ∷ ks) m =
    add_ranks (suc i) ks (if is_some (rank_in k m) then m else m ++ (k, i) ∷ [])

abbrev at_least_one : ℕ → ℕ
at_least_one zero = 1
at_least_one (suc n) = suc n

-- A limit that is not positive counts as 0.
unfoldable pub new_manager : List String → ℕ → ℕ → List Provider → Config
new_manager device_order per_device cpu providers = record {
  providers = providers;
  device_rank = add_ranks 0 device_order [];
  per_device_concurrency = at_least_one per_device;
  cpu_concurrency = at_least_one cpu;
}

-- The four lists that `candidates` fills.
pub record Buckets : Type 0 where
  pub copies : List PipelineCandidate
  pub decode : List PipelineCandidate
  pub upload : List PipelineCandidate
  pub cpus : List PipelineCandidate

abbrev with_mode : Provider → Device → DecodeMode → PipelineCandidate
with_mode p d mode = record { provider = p; device = d; mode = mode }

abbrev is_empty : List (String × ℕ) → Bool
is_empty [] = true
is_empty (_ ∷ _) = false

abbrev pub allowed : Config → Provider → Device → Bool
allowed cfg p d = is_empty cfg.device_rank || is_some (rank_in (key p d) cfg.device_rank)

abbrev pub place : ProviderKind → Config → Provider → Device → Buckets → Buckets
place copy_kind cfg p d b = record b { copies = with_mode p d decode_copy ∷ b.copies }
place hardware_kind cfg p d b =
    if allowed cfg p d
    then record b {
      decode = with_mode p d decode_hardware ∷ b.decode;
      upload = with_mode p d decode_software ∷ b.upload;
    }
    else b
place cpu_kind cfg p d b = record b { cpus = with_mode p d decode_software ∷ b.cpus }
place unknown_kind cfg p d b = b

-- The loops, from the last device to the first, so that each list is in the order of the inventory.
unfoldable pub of_devices : Config → Provider → List Device → Buckets → Buckets
of_devices cfg p [] b = b
of_devices cfg p (d ∷ ds) b = place p.kind cfg p d (of_devices cfg p ds b)

unfoldable pub of_providers : Config → List Provider → Buckets
of_providers cfg [] = record { copies = []; decode = []; upload = []; cpus = [] }
of_providers cfg (p ∷ ps) = of_devices cfg p p.inventory (of_providers cfg ps)

abbrev pub is_hardware : ProviderKind → Bool
is_hardware hardware_kind = true
is_hardware _ = false

abbrev or_zero : Option ℕ → ℕ
or_zero none = 0
or_zero (some i) = i

abbrev pub in_use : Tokens → PipelineCandidate → ℕ
in_use tokens c = tokens (key c.provider c.device)

abbrev rank_of : Config → PipelineCandidate → ℕ
rank_of cfg c = or_zero (rank_in (key c.provider c.device) cfg.device_rank)

-- The comparison of `sortCandidates`.
unfoldable pub less : Config → Tokens → PipelineCandidate → PipelineCandidate → Bool
less cfg tokens a b =
    let hw = is_hardware (a.provider).kind in
    if hw && (ltb (in_use tokens a) (in_use tokens b) || ltb (in_use tokens b) (in_use tokens a))
    then ltb (in_use tokens a) (in_use tokens b)
    else (if not (is_empty cfg.device_rank) && hw
        then ltb (rank_of cfg a) (rank_of cfg b)
        else ltb (b.device).performance_score (a.device).performance_score)

module _ {A : Type 0} (before : A → A → Bool) where
  unfoldable pub insert_stable : A → List A → List A
  insert_stable x [] = x ∷ []
  insert_stable x (y ∷ ys) =
      let rest = insert_stable x ys in if before y x then y ∷ rest else x ∷ y ∷ ys

  unfoldable pub sort_stable : List A → List A
  sort_stable [] = []
  sort_stable (x ∷ xs) = insert_stable x (sort_stable xs)

unfoldable pub candidates : Config → Tokens → List PipelineCandidate
candidates cfg tokens =
    let b = of_providers cfg cfg.providers in
    let sort = sort_stable (less cfg tokens) in
    sort b.copies ++ sort b.decode ++ sort b.upload ++ sort b.cpus
