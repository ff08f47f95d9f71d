-- ===== src/Devops/Work/Active.antt =====
-- The work of static/js/devops-vue.js that has not ended.
use Prim.Native.Nat.{min}
use centos_info_collect.Base.{
  ◌≡◌, refl, ap, ◌∙◌, Bool, ◌||◌, List, [], ◌∷◌, ◌++◌, map, select, any, length, length-append,
  length-map, length-take, ltb, arith,
}
use centos_info_collect.Devops.Work.{
  Work, Works, is_active, command_item, task_item, deployment_item, active_work_items,
  active_work_count, has_running_work,
}

any-length : (p : Work → Bool) (ws : List Work) → any p ws ≡ ltb 0 (length (select p ws))
any-length p [] = refl
any-length p (w ∷ ws) = ground (arith, any-length p ws)

-- The list of active work shows as many rows as the counter says, up to six; and work is running
-- exactly if the counter is not 0 or a file is active, which the counter does not count.
pub active_work-agrees :
    (w : Works)
    → (length (active_work_items w) ≡ min 6 (active_work_count w))
      × (has_running_work w ≡ (ltb 0 (active_work_count w) || any is_active w.files))
unfolding active_work_items active_work_count has_running_work
active_work-agrees w =
    let c = select is_active w.commands in
    let t = select is_active w.tasks in
    let d = select is_active w.deployments in
    (
      length-take 6 (map command_item c ++ (map task_item t ++ map deployment_item d))
          ∙ ap (min 6) (
              omega (
                arith,
                length-append (map command_item c) (map task_item t ++ map deployment_item d),
                length-append (map task_item t) (map deployment_item d),
                length-map command_item c,
                length-map task_item t,
                length-map deployment_item d,
              )),
      ground (
        arith,
        any-length is_active w.commands,
        any-length is_active w.tasks,
        any-length is_active w.deployments,
      ),
    )
