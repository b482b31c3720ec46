-- ===== src/Database/Files.antt =====
-- What src/db/database.service.ts asks of the file system.
use Prim.Native.String.{[], ◌∷◌}
use timeoff_request.Base.{String, Bool, ◌||◌, ◌==◌, List}

-- `text.endsWith(suffix)`
unfoldable pub ends_with : String → String → Bool
ends_with [] suffix = [] == suffix
ends_with (c ∷ s) suffix = (c ∷ s) == suffix || ends_with s suffix

-- `existsSync`, `readdirSync`, and `readFileSync` of a file in a directory
pub record FileSystem : Type 0 where
  pub exists : String → Bool
  pub readdir : String → List String
  pub read_file : String → String → String
