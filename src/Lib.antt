-- ===== src/Lib.antt =====
-- The back end of AppScan Custom Dashboard, backend/app: a FastAPI service that reads scans,
-- applications and issues from AppScan on Cloud (ASoC) and keeps dashboards, reports, data sources and
-- an audit log in PostgreSQL. A request is authenticated (a token becomes a user with a role and asset
-- groups), its action is looked up in a role policy, and the route then calls the store or a service;
-- the services read ASoC by its client, once for each data source, and merge, filter and count what
-- they get; a background worker runs the report schedules.
--
-- Which file models what:
--   Base, Json     the Python that the code uses: texts, decimal numbers, sorted, dicts, sums and counts
--                  over them, JSON values.
--   Errors         HTTPException, the database's IntegrityError, and other exceptions, as values.
--   Config         backend/app/core/config/settings.py: the ASoC endpoints of the environment.
--   Security       backend/app/core/security: Policy is policy.py, Access is authorization.py, Session
--                  is auth.py, dependencies.py and the login of api/v1/routes/auth.py.
--   Client         backend/app/integrations/appscan_api/client.py: Guard is _validate_request and the
--                  header helpers, Auth the login and the choice of headers, Read the 429 retry, get,
--                  get_count and get_with_count; Http holds the client's state and its actions.
--   Store          backend/app/repositories/postgres_store.py: Table is a table with a key, Exec the
--                  rows, the database and actions on it that may raise, Dashboards, Reports, Templates,
--                  Audit and Snapshots the functions of that file under their own names. DataSources
--                  is data_source_store.py, and its Spec the finite map that the table stands for.
--   Routes         backend/app/api/v1/routes: Dashboard is dashboard.py, Reports is reports.py,
--                  Templates the template routes of both, Writes ten of their requests that write, as
--                  one interface, Endpoints is endpoints.py, and Analytics the request lists, the
--                  scope, the catalogue filter and the table of locks of analytics.py.
--   Services       backend/app/services: ReadService is asoc_read_service.py (Normalize its
--                  normalisers, Technology the technologies of applications and issues, Filters,
--                  Statistics, Prioritization and Series the calculations of those names, Paging the
--                  page loop and the issue counts), IssueCounts and MultiEndpoint the merges of
--                  multi_endpoint.py, DataSources is data_source_service.py and the choice of sources
--                  in multi_endpoint.py, its Merge the tagged lists and the tenant information.
--   Workers        backend/app/workers: Scheduler is report_scheduler.py.
--
-- State. A client is a World of Client.Http: its token fields, every request that left it (sent) and
-- every pause (slept), and the state of the service outside. The store is a World of Store.Exec: the
-- tables, as lists of rows in the order of their insertion, and the numbers of random ids and clock
-- readings drawn so far. Each statement commits by itself, as in the source, so what an action wrote
-- before it raised stays written. A dict is a list of its entries in the order of their insertion.
--
-- Parameters. The HTTP library and the service behind it, the JWT library, json.loads, dates, uuid4, the
-- clock, the cron library and the file system are arguments of the definitions that use them. A datetime
-- is a number, `fromisoformat` reads one from a text, and a function writes the day, week, month or year
-- of one. The order of audit events with the same time is the database's, so the order that a query sees
-- is a parameter too; the other lists that the store sorts keep the order of insertion between equal
-- keys. The settings of the page loop are at their defaults, floats are finite, and a Retry-After is read
-- in whole milliseconds. Texts are ASCII where the source changes their case. A JSON column is the value that it
-- encodes. What the calls of asyncio.gather answer is taken in the order of the calls, and the counts
-- that a service answers are natural numbers.
--
-- Loops. The 429 retry runs on the retries that are left and the page loop on the pages that are left,
-- the constants of the source, so no fuel is added; the page loop is shown to end by itself. The
-- worker's endless loop is modelled by one turn of it, and decimal numbers are written with one unit of
-- fuel more than the number, which has fewer digits than that.
--
-- Not modelled: the cached bundle of the analytics routes and its refresh, the mapping of raw ASoC items,
-- page coverage and scan durations (floats and heuristics over them), the refresh of API identities and
-- the connectivity probe, the dashboard wizard, exports, database migrations, the connection (its lock,
-- and the transaction that an IntegrityError leaves failed on it), and the front end.
-- Requests are modelled one after the other: two that run at once on the store are not.
pub mod Base
pub mod Json
pub mod Config
pub mod Errors
pub mod Security
pub mod Client
pub mod Store
pub mod Routes
pub mod Services
pub mod Workers
