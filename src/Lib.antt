-- ===== src/Lib.antt =====
-- Trusyn AI: the browser applications of the repository. The web application (frontend/web-app) and
-- the admin panel (frontend/admin_panel) keep a session with the backend; the landing page
-- (frontend/landing-page) stands alone.
--
-- The program's parts and their files. Paths are below frontend/web-app/src/app unless they say
-- admin_panel, which stands for frontend/admin_panel/src/app. Names are those of the source in the
-- spelling of this library: `apiRequest` is `api_request`.
--
--   Prelude         texts (lists of UTF-16 code units), lists and tests on native numbers.
--   Runtime         the platform. Value: the values that JSON.parse gives, with the reads and
--                   tests of JavaScript on them. Monad: `Env`, what the code calls and does not
--                   define (fetch, JSON, URLSearchParams, String, toUpperCase, the other tasks),
--                   and `App`, the state all tasks share (localStorage, whether `refreshPromise`
--                   is set, the events and the requests so far). A `Call` is an async function: it
--                   takes the state to a result, a value or what was thrown, and a state.
--   Session         api/auth.ts (Tokens) and utils/sessionUser.ts (User), of both applications: a
--                   `Panel` says which. Laws: round trips, and that the two do not disturb each
--                   other. View: what the store promises without keys and texts. Subscription: the
--                   listeners of subscribeSessionUser, and state/session.ts, the hook over
--                   it (what React does with its snapshots is left out).
--   Client          api/client.ts and api/errors.ts of both: Url (buildUrl, buildQuery), Error
--                   (safeJsonParse, parseResponseBody, toApiError), Auth (applyAuthSession,
--                   clearAuthState, refreshAccessToken), Request (apiRequest). Replies, Rounds,
--                   Renewal, Repeat, Outcome, Refresh and UrlLaws hold the theorems; Pool is the
--                   sharing of one refresh by many calls, as a step relation.
--   Auth            api/services/authService.ts of both (Service), routes.tsx and
--                   components/auth/ProtectedRoute.tsx (Route), admin_panel/App.tsx (AdminFrame).
--   Api             api/endpoints.ts and api/services/*.ts of both (Endpoints, Services), and the
--                   CSV export of admin_panel/api/services/auditService.ts (Export).
--   Types           api/types/*.ts of both.
--   Pages           pages/PolicyEnginePage.tsx (Policies), AgentsPage.tsx (Agents),
--                   ThreatCenterPage.tsx (Threats), SettingsPage.tsx (Settings), LoginPage.tsx
--                   (Login), AuditLogsPage.tsx (AuditLogs), DashboardPage.tsx and
--                   AnalyticsPage.tsx (Dashboard); Fields is what their controls set, Layout
--                   components/layout/*.tsx, Listing what the list pages share, and Format
--                   admin_panel/utils/formatters.ts and the ages of ThreatCenterPage.tsx. The
--                   Screen below each page is what its component shows of its state: texts, rows,
--                   figures, which buttons are disabled and what is highlighted; Pages.Screen is
--                   what they share. Run, in Policies, Agents and Settings, is the page in use:
--                   presses of the buttons that are not disabled, and answers of the backend, as
--                   one event type; Policies.Removal and Renewed are a deletion over the service
--                   and the client, and Login.Workspace the way from the form of the login to the
--                   pages of the workspace.
--   Admin           admin_panel/pages: PlatformOverview.tsx (Overview), Organizations.tsx,
--                   ThreatIntelligence.tsx, AIAgents.tsx (AiAgents), APIMonitoring.tsx
--                   (ApiMonitoring), Governance.tsx, AuditLogs.tsx, SystemHealth.tsx, Settings.tsx
--                   (Changes: its integrations, keys and fields; Timers: its saves and their
--                   timers, as a step relation) and AdminLoginPage.tsx (LoginPage); Layout is
--                   TopNavbar.tsx and LeftSidebar.tsx of admin_panel/components. Common and
--                   Counting are the counts, ratios and charts that they share, and Screen, here
--                   too, is what is shown.
--   Landing         frontend/landing-page/src/app: components/HeroSection.tsx (Typewriter, the
--                   phases in Sections, and what the diagram shows of them in Flow),
--                   DashboardSection.tsx (Feed), SocialProofSection.tsx (Counter),
--                   HowItWorksSection.tsx (Sections and Tour), ArchitectureSection.tsx and
--                   FeaturesSection.tsx (Blink), CTASection.tsx and Navbar.tsx (Sections and
--                   Links), and App.tsx and pages/DemoShowcasePage.tsx (Showcase). It shares
--                   nothing with the two applications.
--
-- How they interact: a page calls a service, a service hands a path and options to `api_request`,
-- which reads the tokens of the session store, renews them on a 401 and removes them where that
-- fails. The routes and the frame of the admin panel decide by the session what is shown, and the
-- components that subscribe to the session hear of its changes.
--
-- Waiting. In Client and Auth an `await` is `resume`: the other tasks may change the storage and
-- `refreshPromise` there, as `Env` says; theorems that need quiet assume `IsQuiet`. In Pages and
-- Admin a handler that waits is two functions, before its call and after it, and what it keeps of
-- its closure is an argument of the second one, so that other handlers may run between. A timer is
-- a function that is applied whenever it comes.
--
-- Bounds. The call that `apiRequest` makes of itself is recursion on a number of rounds; two are
-- enough, since the second one is made without a retry (Client.Rounds). A demonstration of the
-- landing page is recursion on a number of milliseconds; the theorems are of every number. The
-- numbers the modelled code computes with are counts, offsets, ratios of counts and scores; no
-- integer wraps around.
-- Ratios are rounded in exact arithmetic, and scores are whole, where the code has floating-point
-- numbers.
--
-- Not modelled: titles, labels of fields, placeholders and icons, and styles but those that tell a
-- state; the animations of the motion library; the timer of the timeout but as one way in which
-- `fetch` may settle; localStorage that throws; the texts of dates in the language of the browser
-- (a parameter where they are shown); the components and demo data that no page imports; the copies
-- of UI components; and the backend, which may answer anything. React is modelled only where
-- Session.Subscription says so; a press works on the screen that was rendered last.
pub mod Prelude
pub mod Runtime
pub mod Session
pub mod Client
pub mod Auth
pub mod Api
pub mod Types
pub mod Landing
pub mod Pages
pub mod Admin
