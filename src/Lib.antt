-- ===== src/Lib.antt =====
-- Verification of the ClusterVision web client, the TypeScript program under frontend/src. It is a
-- single-page program that manages the users and the RBAC of Kubernetes clusters through a backend.
--
-- Parts, and how they interact:
-- - Auth.antt: the session store (store/authStore.ts) and the store of the active cluster
--   (store/clusterStore.ts), each a record with one function per operation. Every other part reads
--   them.
-- - Auth/Guards.antt: what decides which page a path shows. RequireAuth renews the session once on
--   its first render, RequireInstanceAdmin protects two pages, and App.tsx has the table of routes.
-- - Client.antt: the interceptors of api/client.ts. The module variables isRefreshing and
--   pendingQueue, the request that waits for the refresh, and the session store are the state; the
--   failures of requests, the end of a refresh and the writes of other parts to the session store are
--   the events of a step function; replays, rejections and the effects on the browser are actions.
--   The promises of the code are these actions, in the order in which the code settles them.
--   Client/Spec.antt is what the client promises when the order of the waiting requests is forgotten:
--   they are a bag (Base/Bags.antt), and a refresh is in flight or not.
-- - Types.antt and Api.antt with its children: the payloads as JSON values, and for each function of
--   the API objects the call of the HTTP client that it makes.
-- - Hooks.antt with its children: each query hook is its cache key, its call and its options, each
--   mutation hook its call and the effects of its callbacks. Hooks/Keys.antt and
--   Hooks/Refreshing.antt relate all hooks.
-- - Yaml.antt: lib/parseRbacYaml.ts, from the value that js-yaml loads to the rules or the error.
-- - Wizard.antt, Wizard/Finishing.antt and Wizard/Controls.antt:
--   components/users/CreateUserWizard.tsx.
--   The state variables are a record, each handler a function on it, and the markup is a test for each
--   step that tells which controls are shown and enabled. A step of the wizard is an enabled control
--   or
--   an answer that it waits for; Reach has the states that steps lead to, while the list of the
--   namespaces stays the same. React runs the updater that Next gives to setSelectedNs at once, where
--   no update is queued before it, or in the next render, when the ref that it reads has been written
--   anew; the event has both.
-- - Roles.antt and Roles/Controls.antt: components/rbac/RoleEditorModal.tsx, the editor of a role, in
--   the same way. It imports rules by Yaml.antt.
-- - Rbac.antt: pages/RbacPage.tsx, the page that opens this editor and the dialog to delete a role.
--   What
--   the editor asks for is an event of the page.
-- - Rbac/Access.antt: components/rbac/NamespaceAccessPanel.tsx, a tab of that page.
-- - Users.antt: pages/UsersPage.tsx with ImportUserModal.tsx and DeleteUserModal.tsx of
--   components/users.
-- - Clusters.antt: pages/ClustersPage.tsx and components/clusters/AddClusterModal.tsx. The scripts
--   that
--   have not come yet are a list, and additions that outlive their dialog are counted.
-- - Requests.antt: components/access/RequestAccessModal.tsx, the form of a request for temporary
--   access; Requests/Review.antt: pages/AccessRequestsPage.tsx, where requests are approved, denied,
--   revoked and exported; Requests/Policies.antt: components/access/JitPolicyModal.tsx.
-- - Dashboard.antt: pages/DashboardPage.tsx, where requests are approved and denied by their row.
-- - Audit.antt: pages/AuditLogPage.tsx, the filters of the audit log and its pages.
-- - Kubeconfig.antt: components/kubeconfig/KubeconfigPanel.tsx. A render in which the key, the
--   namespace, the users or Vault have changed runs the effects with that render's values; the timer
--   keeps the request of the render that has set it, and the two refs are fields of the state.
--   Kubeconfig/Copying.antt: the preview, the copy and the download.
-- - Tokens.antt: pages/TokensPage.tsx. Reach has the controls that were used.
-- - Admin.antt: pages/AdminPage.tsx with its dialogs, and in its children Assignments, Links and Vault
--   components/admin/RoleAssignmentsModal.tsx, LinkManagedUserModal.tsx and VaultConfigSection.tsx.
-- - Permissions.antt: components/users/UserPermissionsPanel.tsx, which reads the value of a role as
--   Requests.antt does.
-- - Simulator.antt: components/rbac/AccessSimulatorPanel.tsx. The answers of the backend are a
--   function
--   of the check.
-- - Shell.antt: components/layout/Sidebar.tsx, TopBar.tsx, ClusterSwitcher.tsx and
--   pages/LoginPage.tsx:
--   the links, signing in and out, and the active cluster; Shell/Frame.antt:
--   components/layout/Layout.tsx. Its theorems rest on the guards.
-- - Paging.antt: components/ui/Pagination.tsx and the state of the two tables that it pages; the loop
--   over the pages is a recursion on the rounds that are left. Paging/Tables.antt: the rows of
--   components/rbac/RoleList.tsx and components/users/UserList.tsx, sorted by an insertion sort, which
--   is stable as the sort of arrays is.
-- - Base.antt with its children: names of the library passed on, texts, list functions with Boolean
--   tests, and JSON values.
--
-- Correspondence. A snake_case name is the code's camelCase name (handle_close is handleClose). A
-- JavaScript value that may be null or undefined is an Option, or a Value with both where the code
-- tells them apart. A Set is a list without duplicates in the order of insertion, and Record a list
-- of pairs of which the first with a key is read. Numbers in milliseconds and counts are natural
-- numbers. Handlers and callbacks read the state of the render in which they run; the callback of a
-- mutation reads the latest one, since the query library replaces a pending mutation's callbacks at
-- each render.
--
-- Fuel. Auth.Guards.visit follows a number of redirections that is given; two are enough
-- (Auth.Guards.Redirects). Writing a number in Base/Text.antt takes one round for each digit and has
-- one more than the number; Paging.page_loop has a round for each page. Everything else is structural
-- recursion.
--
-- Parameters. js-yaml's load is an argument of parse_rules_yaml. The router's choice of a route is an
-- argument of visit; the redirections, the sidebar and the login assume that the paths they use are
-- fitted to their routes. The comparison of texts by locale, the time of a date, the lowering of
-- letters, the number that a numeric text stands for and the encoding of URLs are arguments of the
-- definitions that use them. The match of cache keys is an argument of the refreshing theorem, with
-- the documented match by prefix, under which keys with different names in front do not match.
--
-- Not modelled: markup, texts and styles; the parts that only list what hooks return; the browser's
-- storage, clipboard and downloads beyond the fact that they are asked for; axios, the query library,
-- zustand and the router themselves; the backend, which is a Python program.
pub mod Dashboard
pub mod Clusters
pub mod Base
pub mod Yaml
pub mod Auth
pub mod Client
pub mod Types
pub mod Api
pub mod Hooks
pub mod Users
pub mod Wizard
pub mod Paging
pub mod Roles
pub mod Requests
pub mod Audit
pub mod Kubeconfig
pub mod Simulator
pub mod Permissions
pub mod Shell
pub mod Rbac
pub mod Tokens
pub mod Admin
