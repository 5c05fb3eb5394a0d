-- ===== src/Tasks/Gone.antt =====
-- What a delete task has done when it says that it is done: pkg/engine/task/task_delete.go.
use kudo.Prelude.{◌≡◌, String, true, List, [], ◌∷◌, none, some, ok, err}
use kudo.Kube.Objects.{ApiError, ObjectKey}
use kudo.Kube.Keys.{object_key_from_object}
use kudo.Tasks.Run.{Context}
use kudo.Tasks.Render.{Machinery}
use kudo.Tasks.Delete.{objects_to_delete}

module _ {Y O W : Type 0} (m : Machinery Y O W) where
  -- The requests to delete the objects, one after the other: each was accepted, or answered that there
  -- is no such object.
  pub data Requested : List O → W → W → Type 0 where
    none_left : (w : W) → Requested [] w w
    accepted :
        (o : O) (rest : List O) (w v w' : W)
        → m.client.delete o w ≡ (none, v)
        → Requested rest v w'
        → Requested (o ∷ rest) w w'
    not_there :
        (o : O) (rest : List O) (e : ApiError) (w v w' : W)
        → m.client.delete o w ≡ (some e, v)
        → e.not_found ≡ true
        → Requested rest v w'
        → Requested (o ∷ rest) w w'

  -- The reads of the objects, one after the other: each under the object's own key, and answered that
  -- there is no such object.
  pub data Missing : List O → W → W → Type 0 where
    none_asked : (w : W) → Missing [] w w
    missing :
        (o : O) (rest : List O) (key : ObjectKey) (e : ApiError) (w v w' : W)
        → object_key_from_object m.client m.objects o w ≡ (ok key, v)
        → m.client.get key o v ≡ err e
        → e.not_found ≡ true
        → Missing rest v w'
        → Missing (o ∷ rest) w w'

  -- What a finished delete task has done.
  pub record Gone (names : List String) (ctx : Context Y) (w w' : W) : Type 0 where
    pub objects : List O
    pub between : W
    pub after : W
    pub prepares : objects_to_delete m names ctx w ≡ (ok objects, between)
    pub requests : Requested objects between after
    pub reads : Missing objects after w'
