-- ===== src/Updater/Images.antt =====
-- `container_image`, `current_installation` and `pin_images` of scripts/tg_update.py.
use transparent_gateway.Prelude.{
  Bool, true, false, not, ◌&&◌, ◌||◌, Option, none, some, List, [], ◌∷◌, ◌++◌, take, Text, str,
  ◌==◌, text_eq, contains, if◌then◌else◌,
}
use transparent_gateway.Python.{
  Result, ok, err, type_error, json_error, index_error, Value, text, obj, Fields, end, field, put,
  truthy, value_or, get, lower, split_all, subscript, subscript2, method_get, method_get_default,
  elements, expect_text, expect_str, expect_dict, has_key, same_keys, value_eq, or_raise,
}
use transparent_gateway.Python as Py
use transparent_gateway.Host.{
  Machine, Task, update_failure, is_update_failure, ◌>>=◌, ◌>>◌, pure, fail, lift, fail_if, execute,
  catch,
}
use transparent_gateway.Updater.Commands.{run_compose}

-- `"/".join(…)` of the two parts of a platform, and its variant
unfoldable pub platform_of : Value → Result Text
platform_of v = Py.◌>>=◌ (method_get_default v (str "os") (text [])) λ os.
    Py.◌>>=◌ (expect_text os) λ os_name.
      Py.◌>>=◌ (method_get_default v (str "architecture") (text [])) λ architecture.
        Py.◌>>=◌ (expect_text architecture) λ architecture_name.
          Py.◌>>=◌ (method_get v (str "variant")) λ variant.
            let platform = os_name ++ str "/" ++ architecture_name in
            if truthy variant
            then Py.◌>>=◌ (expect_text variant) (λ name. ok (platform ++ str "/" ++ name))
            else ok platform

-- What a running container says of its image's manifest.
pub record Manifest : Type 0 where
  pub expected : Value
  pub platform_data : Value
  pub platform : Text

unfoldable pub manifest_of : Value → Result Manifest
manifest_of row = Py.◌>>=◌ (method_get row (str "ImageManifestDescriptor")) λ found.
    let descriptor = value_or found (obj end) in
    Py.◌>>=◌ (method_get descriptor (str "digest")) λ expected.
      Py.◌>>=◌ (method_get descriptor (str "platform")) λ found_platform.
        let platform_data = value_or found_platform (obj end) in
        Py.◌>>=◌ (platform_of platform_data) λ platform.
          ok (record { expected = expected; platform_data = platform_data; platform = platform })

-- `row["Config"]["Labels"][name]`
unfoldable pub label : Value → Text → Result Value
label row name =
    Py.◌>>=◌ (subscript2 row (str "Config") (str "Labels")) λ labels. subscript labels name

-- `if expected and all(platform_data.get(key) for key in ("os", "architecture"))`
unfoldable pub is_described : Manifest → Bool
is_described m = truthy m.expected && elim m.platform_data [
  | obj d ↦ truthy (get d (str "os")) && truthy (get d (str "architecture"))
  | _ ↦ false
]

-- The last part of a text at a separator: `s.split(c)[-1]`.
last_of : List Text → Text
last_of [] = []
last_of (x ∷ []) = x
last_of (x ∷ y ∷ ys) = last_of (y ∷ ys)

module _ (M : Machine) (root : Text) where
  -- `json.loads(output)[0]`
  unfoldable pub first_of : Text → Result Value
  first_of output =
      Py.◌>>=◌ (or_raise (M.loads output) json_error)
        λ v. Py.◌>>=◌ (elements v) λ vs. elim vs [ [] ↦ err index_error | x ∷ _ ↦ ok x ]

  -- `inspect`
  unfoldable pub inspect : Text → List Text → Task Value
  inspect reference platform = do
    output ←
        execute M (str "docker" ∷ str "image" ∷ str "inspect" ∷ (platform ++ reference ∷ [])) root
    lift (first_of output)

  -- `(selected.get("Descriptor") or {}).get("digest", selected["Id"])`
  unfoldable pub digest_of : Value → Result Value
  digest_of selected = Py.◌>>=◌ (method_get selected (str "Descriptor")) λ descriptor.
      Py.◌>>=◌ (subscript selected (str "Id"))
        λ id. method_get_default (value_or descriptor (obj end)) (str "digest") id

  -- The part of `matching` in its `try`, for a reference that was not checked before.
  unfoldable pub match_reference : Manifest → Text → Task (Option Text)
  match_reference m reference = do
    image ← inspect reference []
    id ← lift (Py.◌>>=◌ (subscript image (str "Id")) expect_text)
    selected ← inspect id (str "--platform" ∷ m.platform ∷ [])
    digest ← lift (digest_of selected)
    pure (if value_eq M.runtime.eq M.int_float_eq digest m.expected then some id else none)

  -- `matching`, with the references that were checked
  unfoldable pub matching : Manifest → List Text → Text → Task (Option Text)
  matching m checked reference =
      if reference == [] || contains checked reference
      then pure none
      else catch is_update_failure (match_reference m reference) (λ _. pure none)

  -- The loop over the local images, and the failure behind it.
  unfoldable pub match_local : Manifest → List Text → List Text → Task Text
  match_local m checked [] = fail update_failure
  match_local m checked (reference ∷ references) = do
    found ← matching m checked reference
    let rest = match_local m (reference ∷ checked) references
    elim found [ some id ↦ pure id | none ↦ rest ]

  -- What `container_image` does once the image is not found by the container's own reference.
  unfoldable pub search_images : (words : Text → List Text) → Value → Manifest → Task Text
  search_images words row m =
      if is_described m
      then (do
        config ← lift (subscript row (str "Config"))
        named ← lift (method_get config (str "Image"))
        reference ← lift (if truthy named then expect_text named else ok [])
        found ← matching m [] reference
        elim found [
          | some id ↦ pure id
          | none ↦ do
            output ←
                execute M
                  (str "docker"
                    ∷ str "image"
                    ∷ str "ls"
                    ∷ str "--all"
                    ∷ str "--quiet"
                    ∷ str "--no-trunc"
                    ∷ [])
                  root
            match_local m (reference ∷ []) (words output)
        ])
      else fail update_failure

  -- `container_image`; `words` is `str.split` at white space.
  unfoldable pub container_image : (words : Text → List Text) → Value → Task Text
  container_image words row = do
    _ ← lift (label row (str "com.docker.compose.service"))
    m ← lift (manifest_of row)
    catch is_update_failure
        (do
          reference ← lift (Py.◌>>=◌ (subscript row (str "Image")) expect_text)
          image ← inspect reference []
          lift (Py.◌>>=◌ (subscript image (str "Id")) expect_text))
        (λ _. search_images words row m)

  -- The place and the name of a mounted volume.
  unfoldable pub volume_entry : Value → Result (Text × Value)
  volume_entry mount = Py.◌>>=◌ (subscript mount (str "Name")) λ name.
      Py.◌>>=◌ (subscript mount (str "Destination"))
        λ place. Py.◌>>=◌ (expect_text place) λ destination. ok (destination, name)

  -- The loop over the mounts of a container: its volumes, by the service and their place.
  unfoldable pub volumes_of : Text → Fields → List Value → Result Fields
  volumes_of service volumes [] = ok volumes
  volumes_of service volumes (mount ∷ mounts) = Py.◌>>=◌ (subscript mount (str "Type")) λ kind.
      let is_volume = value_eq M.runtime.eq M.int_float_eq kind (text (str "volume")) in
      Py.◌>>=◌
        (if is_volume
          then Py.◌>>=◌ (volume_entry mount)
              (λ entry. ok (put volumes (service ++ str ":" ++ entry.0) entry.1))
          else ok volumes)
        λ volumes'. volumes_of service volumes' mounts

  -- `labels.get("com.docker.compose.oneoff", "False").lower() == "true"`
  unfoldable pub is_oneoff : Value → Result Bool
  is_oneoff labels =
      Py.◌>>=◌ (method_get_default labels (str "com.docker.compose.oneoff") (text (str "False")))
        λ v. Py.◌>>=◌ (expect_str v) λ s. ok (lower s == str "true")

  -- The test of a row: the name of its service, if the row is not one to pass over
  unfoldable pub service_of : Fields → Value → Result (Option Text)
  service_of services row = Py.◌>>=◌ (subscript2 row (str "Config") (str "Labels")) λ labels.
      Py.◌>>=◌ (is_oneoff labels) λ oneoff.
        if oneoff
        then ok none
        else Py.◌>>=◌ (Py.◌>>=◌ (subscript labels (str "com.docker.compose.service")) expect_text)
            λ service. ok (some service)

  -- `not row["State"]["Running"]`, behind `service in services`
  unfoldable pub is_unexpected : Fields → Value → Text → Result Bool
  is_unexpected services row service =
      if has_key services service
      then ok true
      else Py.◌>>=◌ (subscript2 row (str "State") (str "Running"))
          λ running. ok (not (truthy running))

  -- A turn of the loop over the containers, once the service is known; `none` passes the row over.
  unfoldable pub read_row :
      (words : Text → List Text) (services volumes : Fields) (row : Value)
      → Option Text
      → (Fields → Fields → Task (Fields × Fields))
      → Task (Fields × Fields)
  read_row words services volumes row none rest = rest services volumes
  read_row words services volumes row (some service) rest = do
    unexpected ← lift (is_unexpected services row service)
    fail_if unexpected update_failure
    image ← container_image words row
    mounts ← lift (Py.◌>>=◌ (subscript row (str "Mounts")) elements)
    volumes' ← lift (volumes_of service volumes mounts)
    rest (put services service (text image)) volumes'

  -- The loop over the containers: images by service, and volumes.
  unfoldable pub read_rows :
      (words : Text → List Text) → Fields → Fields → List Value → Task (Fields × Fields)
  read_rows words services volumes [] = pure (services, volumes)
  read_rows words services volumes (row ∷ rows) = do
    found ← lift (service_of services row)
    read_row words services volumes row found (λ s v. read_rows words s v rows)

  -- `current_installation`
  unfoldable pub current_installation : (words : Text → List Text) → Task (Value × Fields × Fields)
  current_installation words = do
    rendered ← run_compose M root (str "config" ∷ str "--format" ∷ str "json" ∷ [])
    config ← lift (or_raise (M.loads rendered) json_error)
    listed ← run_compose M root (str "ps" ∷ str "--all" ∷ str "--quiet" ∷ [])
    let identifiers = words listed
    fail_if (elim identifiers [ [] ↦ true | _ ∷ _ ↦ false ]) update_failure
    inspected ← execute M (str "docker" ∷ str "inspect" ∷ identifiers) root
    rows ← lift (Py.◌>>=◌ (or_raise (M.loads inspected) json_error) elements)
    found ← read_rows words end end rows
    declared ← lift (Py.◌>>=◌ (subscript config (str "services")) expect_dict)
    fail_if (not (same_keys found.0 declared)) update_failure
    name ← lift (subscript config (str "name"))
    pure (name, found.0, found.1)

  -- `hashlib.sha256(str(root).encode()).hexdigest()[:12]`
  unfoldable pub root_prefix : Text
  root_prefix = take 12 (M.sha256 root)

  unfoldable pub retained_tag : Text → Text → Text
  unfolding last_of
  retained_tag service identifier =
      str "tg-retained-"
      ++ root_prefix
      ++ str "-"
      ++ service
      ++ str ":"
      ++ last_of (split_all b':' identifier)

  -- The loop of `pin_images`.
  unfoldable pub pin_each : Fields → Fields → Task Fields
  pin_each pins end = pure pins
  pin_each pins (field service image images) = do
    identifier ← lift (expect_str image)
    execute M (str "docker" ∷ str "tag" ∷ identifier ∷ retained_tag service identifier ∷ []) root
    pin_each
        (put pins service (
          obj (
            field (str "image") (text (retained_tag service identifier))
              (field (str "pull_policy") (text (str "never")) end))))
        images

  -- `pin_images`
  unfoldable pub pin_images : Value → Fields → Task Value
  pin_images project images = do
    pins ← pin_each end images
    pure (obj (field (str "name") project (field (str "services") (obj pins) end)))
