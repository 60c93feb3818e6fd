-- ===== src/Loaded.antt =====
-- LoadedAsset and the Handler protocol of contentops/core/handler.py. `Payload` is the type of the
-- payloads; a handler is whatever was registered for its kind, so its methods are values.
use content_ops.Prelude.{String, ◌≡◌, refl, ◌⊎◌, inl, inr, Bool, Option}
use content_ops.Asset.{Asset, ActionResult, asset_eq}
use content_ops.EnvStatus.{Status, status_eq}

-- A value, or the text of the exception that is raised.
pub data Result {ℓ} (A : Type ℓ) : Type ℓ where
  ok : A → Result A
  raises : String → Result A

pub Result-cases {ℓ} :
    {A : Type ℓ} (r : Result A) → ((a : A) × (r ≡ ok a)) ⊎ ((exc : String) × (r ≡ raises exc))
Result-cases (ok a) = inl (a, refl)
Result-cases (raises exc) = inr (exc, refl)

-- The envelope's fields that the pipeline reads; `local_customization` is the flag of the file.
pub record LoadedAsset (Payload : Type 0) : Type 0 where
  pub path : String
  pub asset : Asset
  pub id : String
  pub arm_name : String
  pub status : Status
  pub owner : Option String
  pub local_customization : Bool
  pub payload : Payload

-- What `delete` does: a result, NotSupportedError, or another exception.
pub data Deletion : Type 0 where
  deleted : ActionResult → Deletion
  not_supported : String → Deletion
  delete_raises : String → Deletion

pub record Handler (Payload : Type 0) : Type 0 where
  pub validate : LoadedAsset Payload → Option String
  pub plan : LoadedAsset Payload → Result ActionResult
  pub apply : LoadedAsset Payload → (dry_run : Bool) → Result ActionResult
  pub delete : (remote_id : String) → Deletion
