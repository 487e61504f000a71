-- ===== src/Health.antt =====
-- pkg/health/health.go: the file that says that the program is healthy. The calls of the operating
-- system act on a world of type `W` and may return an error of type `E`.
use integrity_sum.Base.{Option, none, some, Bytes}

-- `os.Create`, `Close` of the file that it returns, and `os.Remove`.
pub record Files (W E : Type 0) : Type 0 where
  pub create : Bytes → W → Option E × W
  pub close : Bytes → W → Option E × W
  pub remove : Bytes → W → Option E × W

module _ {W E : Type 0} (files : Files W E) (file : Bytes) where
  abbrev after_create : Option E × W → Option E × W
  after_create (some e, w) = (some e, w)
  after_create (none, w) = files.close file w

  -- `Set`
  unfoldable pub set : W → Option E × W
  set w = after_create (files.create file w)

  -- `Reset`
  unfoldable pub reset : W → Option E × W
  reset w = files.remove file w
