-- ===== src/Lib.antt =====
-- Code2Cloud: the API that takes repositories to deployments.
--
-- The program. Users make projects of their GitHub repositories (apps/api/src/projects), set
-- variables and domains (envs, domains), and ask for deployments (deployments); a push to a linked
-- branch asks for one as well (webhooks). Each of these writes a row for the deployment and pushes
-- a job to Redis (queues). A worker written in Go takes the jobs, and tells of its progress by the
-- internal API (internal), which also gives it what has expired and removes old logs.
--
-- The files, and what they model:
--   Schema          apps/api/prisma/schema.prisma: the enums and the models, as data and records
--   Prisma          the calls of the database client: an interface with the laws of its queries
--   Jobs            queue.constants.ts, and the commands that leave the process
--   World           what a request sees and changes: tables, clock, Redis, commands sent; a service
--                   method is an action, that returns or throws and leaves a world
--   Queues          queues.service.ts: addBuildJob, addProjectCleanupJob, publishCancelSignal
--   Github          git.service.ts: getLatestCommit, and GitHub's API as the services see it
--   Encryption      common/utils/encryption.service.ts: encrypt and decrypt
--   Url             common/utils/url.utils.ts: sanitize and generateDeploymentUrl
--   Deployments     deployments.service.ts, with create in Deployments/Trigger
--   Webhooks        webhooks.service.ts, and webhooks.controller.ts in Webhooks/Signature
--   Internal        internal.service.ts; its notifications, settings and tokens are child modules
--   Projects        projects.service.ts, with create in Projects/Create
--   Envs, Domains   env-vars.service.ts; domains.service.ts
--   Frameworks      git.service.ts: detectFrameworkFromContents
--   Guards          common/guards: the worker's key and the users' tokens
--   Auth            auth.service.ts: signIn, logout, refreshTokens; signing up and in by Google or
--                   GitHub in Auth/Accounts
--   GithubSignIn    git.service.ts: exchangeCodeForUser; the callbacks of auth.controller.ts
--   Repositories    git.service.ts: listRepositories, getRepoContents, detectFrameworkConfig,
--                   getInstallationToken; git.controller.ts
--   Settings        settings.service.ts: getConfig and updateConfig
--   Health          health.service.ts and health.controller.ts: readiness, the state of the whole
--   Analytics       analytics/analytics.service.ts: the figures and charts of a user and of a project
--   Api             the controllers: which requests reach which method, behind the guards
--   LogStream       apps/web/hooks/use-deployment-logs.ts: the hook that follows a log
--   FetchClient     apps/web/lib/fetch-client.ts and token-manager.ts: requests and their tokens
--   Proxy           apps/web/proxy.ts: what runs before a protected page
--   EnvEditor       components/project/EnvVarsPanel.tsx: the editor of a project's variables
--   NewProject      components/project/NewProjectDialog.tsx, types/git.ts and the checks of the form
--   RootSelector    components/project/root-directory-selector.tsx: walking through directories
--   DeploymentPage  the page of a deployment: its stages, controls and the kinds of log entries
--   StatusFilter    the lists of projects and deployments, by search and status
--   Lifecycle       the requests on deployments as steps on the world, and what they keep
--   Tests           concrete instances of the parameters, and runs at concrete inputs
-- Each file names the source that it is about; functions keep the source's names in snake case.
--
-- What is a parameter. The database client (Prisma), the cipher AES-256-GCM (Crypto), the HMAC
-- (Hmac), GitHub's API and its client (GithubApi, GithubOauth, GithubFiles), JSON.parse of a manifest
-- (PackageJson), bcrypt and the signing of tokens (AuthApi, JwtService), groupBy (GroupBy), JSON and
-- the server as a web client sees them (Platform), the random part of an address (UrlConfig), random
-- identifiers and toLowerCase are operations that are given; their laws are the documented ones that
-- the code relies on. The concrete records of Tests show that the laws can hold.
--
-- What is simplified. The clock stands still within a request, and a request runs to its end before
-- the next one. Times are milliseconds and natural numbers; a limit of a query is not negative. The
-- database takes every date that JavaScript can write.
-- Values that validation lets through are taken as typed. Logging is left out. Redis either takes
-- every command of a request or none.
--
-- Loops run over lists, so no fuel is needed; a name is sanitized by structural recursion. The loop
-- over the days of a chart has as many rounds as days begin in its range.
--
-- The web interface. The hook of the log is a record of its React state and refs, and the drip, the
-- polls and their answers are events that come in any order. A request of the fetch client is run
-- with the cookies that it changes; the calls of refreshTokens by several requests are steps of their
-- own. A fetch may be rejected at any time, which stands for timeouts and aborts. Of a component its
-- state and what its handlers do to it are modelled; a save in
-- the editor and its answer are two steps, the variables keep the editor's
-- ids, and the cache is not read again from the server after it.
--
-- What is not modelled: the rendering of pages and components, the hooks that only fetch or that
-- change a cache, the settings page and the panels of analytics; the Go worker and the
-- infrastructure files; mail templates; modules, strategies and the start of the API.
pub mod Prelude
pub mod Schema
pub mod Prisma
pub mod Jobs
pub mod World
pub mod Queues
pub mod Github
pub mod Encryption
pub mod Deployments
pub mod Webhooks
pub mod Tests
pub mod Internal
pub mod Lifecycle
pub mod Url
pub mod Projects
pub mod Envs
pub mod Domains
pub mod Frameworks
pub mod Guards
pub mod Auth
pub mod Settings
pub mod Health
pub mod EnvEditor
pub mod GithubSignIn
pub mod Repositories
pub mod NewProject
pub mod DeploymentPage
pub mod StatusFilter
pub mod RootSelector
pub mod LogStream
pub mod FetchClient
pub mod Proxy
pub mod Analytics
pub mod Api
