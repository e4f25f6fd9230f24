-- ===== src/Queues.antt =====
-- apps/api/src/queues/queues.service.ts: the commands of QueuesService to Redis.
use code2cloud.Prelude.{String}
use code2cloud.Jobs.{BuildJobData, ProjectCleanupJobData, rpush_build, lpush_cleanup, set_cancel}
use code2cloud.World.{Act, send_redis, attempt}

-- addBuildJob: an error of Redis is thrown again.
abbrev pub add_build_job : BuildJobData → Act (Unit {0})
add_build_job job = send_redis (rpush_build job)

-- addProjectCleanupJob: an error of Redis is logged only.
abbrev pub add_project_cleanup_job : ProjectCleanupJobData → Act (Unit {0})
add_project_cleanup_job job = attempt (send_redis (lpush_cleanup job))

-- publishCancelSignal: the key lives for five minutes.
abbrev pub publish_cancel_signal : String → Act (Unit {0})
publish_cancel_signal deployment_id = send_redis (set_cancel deployment_id 300)
