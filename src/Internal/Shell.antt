-- ===== src/Internal/Shell.antt =====
-- Commands and directories: internal/utils/shell/cmd.go. A call of the operating system may depend on
-- all calls before, newest first.
pub mod Words
use Prim.Native.String.{◌++◌}
use tvk_plugins.Prelude.{ℕ, String, Bool, true, false, Option, none, some, List, [], ◌∷◌, ◌==◌}
use tvk_plugins.Prelude.Tests.{if◌then◌else◌}
use tvk_plugins.Prelude.Text.{split}
use tvk_plugins.Kube.Calls.{Error, is_not_found, Result, ok, err}
use tvk_plugins.Action.{Action, pure, raise, try, ◌>>=◌, on_result, on_option}

pub data SystemCall : Type 0 where
  exec : List String → Bool → String → List String → SystemCall
  lstat : String → SystemCall
  stat : String → SystemCall
  remove : String → SystemCall
  remove_all : String → SystemCall
  read_dir : String → SystemCall

-- `CmdOut`
pub record CmdOut : Type 0 where
  pub out : String
  pub exit_code : ℕ

-- `fi.Mode()`
pub data Mode : Type 0 where
  regular : Mode
  directory : Mode
  other : Mode

pub record DirEntry : Type 0 where
  pub name : String
  pub is_dir : Bool

pub record System : Type 0 where
  -- the environment that is added, whether stderr counts, the command and its arguments; an output
  -- comes with every error
  pub exec : List SystemCall → List String → Bool → String → List String → CmdOut × Option Error
  pub lstat : List SystemCall → String → Result Mode
  pub stat : List SystemCall → String → Result Mode
  pub remove : List SystemCall → String → Option Error
  pub remove_all : List SystemCall → String → Option Error
  pub read_dir : List SystemCall → String → Result (List DirEntry)
  pub error_text : Error → String

abbrev pub Shell : Type 0 → Type 0
Shell A = Action (List SystemCall) A

unfoldable pub ask : {A : Type 0} → SystemCall → (List SystemCall → A) → Shell A
ask c reply s = (ok (reply s), c ∷ s)

-- The parts that are not empty.
unfoldable pub words : List String → List String
words [] = []
words (part ∷ parts) = let rest = words parts in if part == "" then rest else part ∷ rest

abbrev pub tail : List String → List String
tail [] = []
tail (x ∷ xs) = xs

abbrev pub first : List String → String
first [] = ""
first (x ∷ xs) = x

-- A command given as text, as `Execute` takes it apart: `parts[0]` and `p[1:]`.
unfoldable pub command_of : String → String × List String
unfolding split words
command_of s = let parts = split s b' ' in (first parts, tail (words parts))

module _ (p : System) where
  unfoldable pub execute_args :
      List String → Bool → String → List String → Shell (CmdOut × Option Error)
  execute_args env combined_output name args =
      ask (SystemCall.exec env combined_output name args)
        (λ h. p.exec h env combined_output name args)

  unfoldable pub execute : List String → Bool → String → Shell (CmdOut × Option Error)
  unfolding execute_args command_of
  execute env combined_output s = execute_args env combined_output (command_of s).0 (command_of s).1

  unfoldable pub run_cmd : String → List String → Shell (CmdOut × Option Error)
  unfolding execute
  run_cmd cmd env = execute env true cmd

  unfoldable pub chmod_r : String → String → Shell (String × Option Error)
  unfolding run_cmd
  chmod_r dir_path mode = do
    (out, e) ← run_cmd ("chmod -R " ++ mode ++ " " ++ dir_path) []
    pure (out.out, e)

  -- `""` and no error, or the error's text and the error.
  abbrev outcome : Option Error → String × Option Error
  outcome none = ("", none)
  outcome (some e) = (p.error_text e, some e)

  unfoldable pub remove_mode : String → Mode → Shell (String × Option Error)
  remove_mode dir_path regular = do
    e ← ask (SystemCall.remove dir_path) (λ h. p.remove h dir_path)
    pure (outcome e)
  remove_mode dir_path directory = do
    e ← ask (SystemCall.remove_all dir_path) (λ h. p.remove_all h dir_path)
    pure (outcome e)
  remove_mode dir_path other = pure ("", none)

  unfoldable pub rm_rf : String → Shell (String × Option Error)
  unfolding chmod_r remove_mode
  rm_rf dir_path = do
    fi ← ask (SystemCall.lstat dir_path) (λ h. p.lstat h dir_path)
    on_result fi (λ e. pure (outcome (some e)))
        (λ mode. (do
          (text, e) ← chmod_r dir_path "0775"
          on_option e (remove_mode dir_path mode) (λ e. pure (text, some e))))

  unfoldable pub dir_names : List DirEntry → List String
  dir_names [] = []
  dir_names (file ∷ files) =
      let rest = dir_names files in if file.is_dir then file.name ∷ rest else rest

  unfoldable pub read_child_dir : String → Shell (List String × Option Error)
  unfolding dir_names
  read_child_dir dir_path = do
    files ← ask (SystemCall.read_dir dir_path) (λ h. p.read_dir h dir_path)
    on_result files (λ e. pure ([], some e)) (λ files. pure (dir_names files, none))

  unfoldable pub mkdir : String → Shell (String × Option Error)
  mkdir dir_path = do
    fi ← ask (SystemCall.stat dir_path) (λ h. p.stat h dir_path)
    on_result fi
        (λ e.
          if is_not_found e
          then (do
            let args = "-c" ∷ ("sudo mkdir " ++ dir_path) ∷ []
            (out, failure) ←
                ask (SystemCall.exec [] true "bash" args) (λ h. p.exec h [] true "bash" args)
            pure (outcome failure))
          else pure (outcome (some e)))
        (λ _. pure ("", none))
