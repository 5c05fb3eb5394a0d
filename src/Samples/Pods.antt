-- ===== src/Samples/Pods.antt =====
-- An instance with a pod that is ready and one that waits.
use kudo.Prelude.{◌≡◌, ◌↔◌, refl, true, false, none, concat}
use kudo.Api.Instance.{Instance}
use kudo.Health.Readiness.{is_ready}
use kudo.Health.Ready.{Selected, AllHealthy, is_ready-Healthy_iff}
use kudo.Samples.Data.{lists, instance_with, values, no_plan}

abbrev idle : Instance
idle = instance_with "zookeeper-1" values no_plan none

is_ready-Healthy_iff_example :
    (s : Selected lists "zk" "default" 5) × ((false ≡ true) ↔ AllHealthy s)
unfolding is_ready concat
is_ready-Healthy_iff_example =
    is_ready-Healthy_iff lists idle 5 false "pod default/zk-1 is not running yet: Pending" refl
