-- ===== src/Tasks/ValidPod.antt =====
-- Which pods and files the checks of a pipe task accept.
use Prim.Native.Char.{code}
use kudo.Prelude.{
  ◌≡◌, ◌≢◌, Option, some, ◌⊎◌, String, true, ◌||◌, List, [], ◌∷◌, none, ok, All, ◌==◌, eqb, length,
  is_empty,
}
use kudo.Tasks.Tasker.{PipeFile}
use kudo.Tasks.PipePod.{
  PipePod, Paths, is_name_char, empty_dirs, mounts_of, find_mount, file_source,
}

-- Some character of the text is a letter, a digit, a dash, a dot or an underscore.
abbrev pub SomeKeyChar : String → Type 0
SomeKeyChar String.[] = ⊥
SomeKeyChar (String.◌∷◌ c rest) = (is_name_char (code c) ≡ true) ⊎ SomeKeyChar rest

abbrev pub NoLeadingDot : String → Type 0
NoLeadingDot String.[] = Unit {0}
NoLeadingDot (String.◌∷◌ c rest) = code c ≢ 46

-- There is a relative path, and it does not begin with a dot.
abbrev pub IsPlain : Option String → Type 0
IsPlain none = ⊥
IsPlain (some path) = NoLeadingDot path

module _ (paths : Paths) where
  -- The file has a path relative to the mount path, which does not begin with a dot, and its name has
  -- some character of the class.
  abbrev pub ValidFile : String → PipeFile → Type 0
  ValidFile mount_path f =
      IsPlain (paths.rel mount_path (file_source f)) × SomeKeyChar (paths.base (file_source f))

  -- What `validate` asks of a pod.
  pub record ValidPod (pod : PipePod) (ff : List PipeFile) : Type 0 where
    pub no_containers : is_empty pod.containers ≡ true
    pub one_init_container : eqb (length pod.init_containers) 1 ≡ true
    pub restarts : (pod.restart_policy == "" || pod.restart_policy == "OnFailure") ≡ true
    pub volume : String
    pub only : empty_dirs pod.volumes ≡ volume ∷ []
    pub mount_path : String
    pub mounted : find_mount volume (mounts_of pod.init_containers) ≡ ok mount_path
    pub files : All (ValidFile mount_path) ff

  -- The part of the checks that is about the volume and the files.
  abbrev Mounts : PipePod → List PipeFile → Type 0
  Mounts pod ff =
      (volume : String) × (mount_path : String) × (empty_dirs pod.volumes ≡ volume ∷ [])
      × (find_mount volume (mounts_of pod.init_containers) ≡ ok mount_path)
      × All (ValidFile mount_path) ff
