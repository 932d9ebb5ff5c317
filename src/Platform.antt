-- ===== src/Platform.antt =====
-- What the operator takes from the libraries that it links: resource quantities, Go's `%q`
-- quoting and the finalizer helpers of controller-runtime. All of it is a parameter.
use pd_manager.Common.{◌≡◌, ◌≢◌, Bool, true, false, Option, List, String}

pub record Platform : Type 1 where
  -- `resource.Quantity`, and `resource.ParseQuantity` with `none` for its error
  pub Quantity : Type 0
  pub parse_quantity : String → Option Quantity
  -- `fmt.Sprintf("%q", s)`
  pub quote : String → String
  -- `controllerutil.ContainsFinalizer`, `AddFinalizer` and `RemoveFinalizer`, on the finalizers
  -- of an object
  pub contains_finalizer : String → List String → Bool
  pub add_finalizer : String → List String → List String
  pub remove_finalizer : String → List String → List String

-- The documented behaviour of the three finalizer helpers.
pub record FinalizerLaws (p : Platform) : Type 0 where
  pub contains-add :
      (f : String) (fs : List String) → p.contains_finalizer f (p.add_finalizer f fs) ≡ true
  pub contains-remove :
      (f : String) (fs : List String) → p.contains_finalizer f (p.remove_finalizer f fs) ≡ false
  pub contains-remove_ne :
      (f g : String) (fs : List String)
      → g ≢ f
      → p.contains_finalizer g (p.remove_finalizer f fs) ≡ p.contains_finalizer g fs
